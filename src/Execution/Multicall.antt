-- ===== src/Execution/Multicall.antt =====
-- `Multicall3Executor` of execution/multicall3.py. `Coder` is what the program takes from the ABI
-- library and the hash library.
pub mod Execute
pub mod Once
pub mod Entries
pub mod Verified
pub mod Whole
pub mod Sentinel
use rpc_state_indexer.Prelude.{
  ℕ, zero, suc, ◌+◌, ◌-◌, ◌*◌, ◌/◌, ◌%◌, ◌^◌, Bool, true, false, not, ◌&&◌, ◌||◌, Option, none,
  some, List, [], ◌∷◌, ◌++◌, Result, ok, err, ◌>>=◌, ◌>>◌, raise_if, length, take, drop, all, min,
  max, ltb, ◌==◌, if◌then◌else◌,
}
use rpc_state_indexer.Prelude.Int.{ℤ, pos}
use rpc_state_indexer.Prelude.Text.{Text, text, text_eq, text_in}
use rpc_state_indexer.Json.{Json, str}
use rpc_state_indexer.Domain.{BlockRef, UIntObservation, is_ok, multicall3}
use rpc_state_indexer.Evm.Bytes.{Bytes, hex_data_to_bytes}
use rpc_state_indexer.Evm.Calldata.{get_block_hash_calldata}
use rpc_state_indexer.Evm.Decoding.{decode_uint256}
use rpc_state_indexer.Rpc.Classification.{
  FailureKind, provider_limit, archive_unavailable, Failure, RpcFailure, classify_rpc_failure,
  normalize_rpc_error,
}
use rpc_state_indexer.Rpc.Endpoint.{RpcEndpoint, second}
use rpc_state_indexer.Rpc.Pool.{PoolFault}
use rpc_state_indexer.Rpc.Client.{Net, Limits, Client}
use rpc_state_indexer.Rpc.Client.Call.{select_endpoint, note_success, note_failure, pause}
use rpc_state_indexer.Execution.Base.{
  ContractCall, RawCallResult, VerificationEvidence, VerifiedBatchResult, ExecutionFault,
  count_mismatch, sentinel_mismatch, bad_word, not_decodable, no_healthy_endpoint, unverified,
  provider_limit_reached, rpc,
}
use rpc_state_indexer.Execution.LegacyBatch.{normalize_hash, bytes_hex}
use rpc_state_indexer.Execution.Sandwich.{Caught, pinned_call, reference_for}

pub record Coder : Type 0 where
  pub encode_aggregate3 : List (Text × Bool × Bytes) → Bytes
  pub decode_aggregate3 : Bytes → Option (List (Bool × Bytes))
  pub digest_raw_results : List RawCallResult → Text

abbrev pub block_number_selector : Bytes
block_number_selector = 66 ∷ 203 ∷ 177 ∷ 92 ∷ []

abbrev pub block_timestamp_selector : Bytes
block_timestamp_selector = 15 ∷ 40 ∷ 201 ∷ 125 ∷ []

-- `execute` has refused block 0, the only one with no parent.
abbrev pub parent_calldata : BlockRef → Result ExecutionFault Bytes
parent_calldata anchor = elim (get_block_hash_calldata (anchor.number - 1)) [
  | err fault ↦ err bad_word
  | ok calldata ↦ ok calldata
]

abbrev pub sentinel : Text → Bytes → Text → Text → ContractCall
sentinel address calldata position name = record {
  key = text "__sentinel_" ++ position ++ text "_" ++ name;
  target = address;
  calldata = calldata;
  allow_failure = false;
}

unfoldable pub sentinels : Text → Text → BlockRef → Result ExecutionFault (List ContractCall)
unfolding get_block_hash_calldata
sentinels address position anchor = do
  parent ← parent_calldata anchor
  ok (
      sentinel address block_number_selector position (text "block")
      ∷ sentinel address block_timestamp_selector position (text "timestamp")
      ∷ sentinel address parent position (text "parent")
      ∷ [])

-- `observation.ok and observation.value == number`.
abbrev pub observes : UIntObservation → ℕ → Bool
observes observation number = elim observation.value [
  | some v ↦ elim v [ pos n ↦ is_ok observation.status && n == number | _ ↦ false ]
  | none ↦ false
]

-- `_verify_sentinels`.
unfoldable pub verify_sentinels : List (Bool × Bytes) → BlockRef → Result ExecutionFault (Unit {0})
unfolding decode_uint256 normalize_hash
verify_sentinels ((s₀, block) ∷ (s₁, timestamp) ∷ (s₂, parent) ∷ []) anchor = do
  raise_if (not (s₀ && s₁ && s₂)) sentinel_mismatch
  raise_if (not (observes (decode_uint256 true block) anchor.number)) sentinel_mismatch
  raise_if (not (observes (decode_uint256 true timestamp) anchor.timestamp)) sentinel_mismatch
  raise_if (not (length parent == 32)) sentinel_mismatch
  expected ← normalize_hash (str anchor.parent_hash)
  raise_if (not (text_eq (text "0x" ++ bytes_hex parent) expected)) sentinel_mismatch
  ok tt
verify_sentinels results anchor = err sentinel_mismatch

abbrev pub packed_calls : List ContractCall → List (Text × Bool × Bytes)
packed_calls [] = []
packed_calls (c ∷ cs) = (c.target, c.allow_failure, c.calldata) ∷ packed_calls cs

abbrev pub from_option : Option (List (Bool × Bytes)) → Result ExecutionFault (List (Bool × Bytes))
from_option none = err not_decodable
from_option (some results) = ok results

abbrev pub raw_bytes : Text → Result ExecutionFault Bytes
raw_bytes encoded = elim (hex_data_to_bytes encoded) [
  | err fault ↦ err not_decodable
  | ok raw ↦ ok raw
]

-- The checks in the `try` of `_execute_once`: all results are there, and both ends were read at
-- the anchor block. `decoded[:3]` and `decoded[-3:]` are its ends.
unfoldable pub verified_results :
    Coder → ℕ → BlockRef → Text → Result ExecutionFault (List (Bool × Bytes))
unfolding hex_data_to_bytes verify_sentinels
verified_results coder expected anchor encoded = do
  raw ← raw_bytes encoded
  decoded ← from_option (coder.decode_aggregate3 raw)
  raise_if (not (length decoded == expected)) count_mismatch
  u₀ ← verify_sentinels (take 3 decoded) anchor
  u₁ ← verify_sentinels (drop (length decoded - 3) decoded) anchor
  ok decoded

abbrev pub raw_result : ContractCall → Bool × Bytes → RawCallResult
raw_result call (success, returndata) = record {
  key = call.key;
  success = success;
  returndata = returndata;
  error_code = none;
  error_message = none;
}

-- `zip(calls, results)` of two lists of one length.
unfoldable pub zip_results : List ContractCall → List (Bool × Bytes) → List RawCallResult
zip_results [] results = []
zip_results (call ∷ calls) [] = []
zip_results (call ∷ calls) (r ∷ results) = raw_result call r ∷ zip_results calls results

-- `decoded[3:-3]`.
abbrev pub middle : List (Bool × Bytes) → List (Bool × Bytes)
middle decoded = drop 3 (take (length decoded - 3) decoded)
