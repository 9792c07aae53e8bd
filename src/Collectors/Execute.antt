-- ===== src/Collectors/Execute.antt =====
-- `execute_uint_calls` and `completeness_check` of collectors/common.py.
use rpc_state_indexer.Prelude.{
  ℕ, suc, Bool, List, [], ◌∷◌, Result, ok, err, map, ◌==◌, if◌then◌else◌,
}
use rpc_state_indexer.Prelude.Text.{Text}
use rpc_state_indexer.Prelude.Exec.{Exec, lift, ◌>>=◌, ◌>>◌}
use rpc_state_indexer.Domain.{BlockRef}
use rpc_state_indexer.Evm.Bytes.{Bytes}
use rpc_state_indexer.Execution.Base.{ContractCall, VerifiedBatchResult}
use rpc_state_indexer.Execution.Adaptive.{Batches}
use rpc_state_indexer.Collectors.Common.{
  UIntCallSpec, Calls, DecodedExecution, CollectorFault, execution, observed, unique_keys,
  decode_batches,
}

-- What the executor raises passes through.
abbrev pub awaited : {S : Type 0} → Batches S → Result CollectorFault (List VerifiedBatchResult) × S
awaited (ok batches, s) = (ok batches, s)
awaited (err fault, s) = (err (execution fault), s)

abbrev pub call_of : UIntCallSpec → ContractCall
call_of spec = spec.call

abbrev pub Executor : Type 0 → Type 0
Executor S = List ContractCall → BlockRef → S → Batches S

abbrev pub execute :
    {S : Type 0}
    → Executor S
    → BlockRef
    → List ContractCall
    → Exec S CollectorFault (List VerifiedBatchResult)
execute executor anchor calls s = awaited (executor calls anchor s)

module _ (casefold : Text → Text) (sha256 : Bytes → Text) {S : Type 0} (executor : Executor S) where
  unfoldable pub execute_uint_calls :
      List UIntCallSpec → BlockRef → Exec S CollectorFault DecodedExecution
  execute_uint_calls specs anchor = do
    lift (unique_keys [] specs)
    batches ← execute executor anchor (map call_of specs)
    lift (decode_batches casefold sha256 anchor specs batches)

-- `sum(call.observation.ok for call in calls)`.
unfoldable pub successful : Calls → ℕ
successful [] = 0
successful ((key, call) ∷ calls) =
    let rest = successful calls in if observed call then suc rest else rest

unfoldable pub completeness_check : ℕ → DecodedExecution → Bool × ℕ
unfolding successful
completeness_check expected_calls decoded =
    let n = successful decoded.calls in (n == expected_calls, n)
