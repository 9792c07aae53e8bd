-- ===== src/Execution/Base.antt =====
-- execution/base.py, execution/errors.py and execution/router.py.
use rpc_state_indexer.Prelude.{ℕ, Bool, Option, List, [], ◌∷◌, leb, if◌then◌else◌}
use rpc_state_indexer.Prelude.Int.{ℤ}
use rpc_state_indexer.Prelude.Text.{Text}
use rpc_state_indexer.Domain.{BlockRef, ExecutorKind}
use rpc_state_indexer.Evm.Bytes.{Bytes}
use rpc_state_indexer.Rpc.Classification.{Failure}

pub record ContractCall : Type 0 where
  pub key : Text
  pub target : Text
  pub calldata : Bytes
  pub allow_failure : Bool

pub record RawCallResult : Type 0 where
  pub key : Text
  pub success : Bool
  pub returndata : Bytes
  pub error_code : Option ℤ
  pub error_message : Option Text

pub record VerificationEvidence : Type 0 where
  pub executor_kind : ExecutorKind
  pub block_reference_kind : Text
  pub anchor_hash : Text
  pub provider_groups : List Text
  pub result_digest : Text
  pub verified : Bool

pub record VerifiedBatchResult : Type 0 where
  pub results : List RawCallResult
  pub evidence : VerificationEvidence

-- The exceptions of the executors; `rpc` is one of the transport's, as it is classified.
pub data ExecutionFault : Type 0 where
  unsupported_range count_mismatch sentinel_mismatch anchor_hash_mismatch : ExecutionFault
  missing_responses duplicate_id unknown_id malformed_response quorum_mismatch : ExecutionFault
  not_decodable no_healthy_endpoint unverified type_error bad_word : ExecutionFault
  provider_limit_reached : ExecutionFault
  rpc : Failure → ExecutionFault

-- `keys` of the calls and of the results, in order.
abbrev pub call_keys : List ContractCall → List Text
call_keys [] = []
call_keys (c ∷ cs) = c.key ∷ call_keys cs

abbrev pub result_keys : List RawCallResult → List Text
result_keys [] = []
result_keys (r ∷ rs) = r.key ∷ result_keys rs

-- Which of the two executors serves the block.
unfoldable pub for_anchor {ℓ} : {E : Type ℓ} → ℕ → E → E → BlockRef → E
for_anchor deployment_block multicall_executor legacy_executor anchor =
    if leb deployment_block anchor.number then multicall_executor else legacy_executor
