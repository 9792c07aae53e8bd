-- ===== src/Execution/Groups.antt =====
-- `Multicall3Executor.execute` of execution/multicall3.py: the calls in batches, one after another,
-- as they run where `max_parallel_batches` is 1.
pub mod Order
use rpc_state_indexer.Prelude.{
  ℕ, zero, suc, List, [], ◌∷◌, Result, ok, err, length, ltb, ◌==◌, ◌||◌, if◌then◌else◌,
}
use rpc_state_indexer.Domain.{BlockRef}
use rpc_state_indexer.Execution.Base.{
  ContractCall, VerifiedBatchResult, ExecutionFault, unsupported_range,
}
use rpc_state_indexer.Execution.Planner.{PlanFault, chunked}
use rpc_state_indexer.Execution.Adaptive.{
  AdaptiveFault, raised, Batches, then_join, execute_adaptive,
}

module _ {S : Type 0}
    (once : List ContractCall → S → Result ExecutionFault VerifiedBatchResult × S) where
  unfoldable pub execute_groups : List (List ContractCall) → S → Batches S
  unfolding execute_adaptive
  execute_groups [] s = (ok [], s)
  execute_groups (group ∷ groups) s =
      then_join (execute_adaptive once (length group) group s) (λ s'. execute_groups groups s')

  -- A size that is not positive has been refused by the constructor.
  abbrev pub in_groups : Result PlanFault (List (List ContractCall)) → S → Batches S
  in_groups (err fault) s = (ok [], s)
  in_groups (ok groups) s = execute_groups groups s

  -- From the split into batches on.
  unfoldable pub execute_in_order : ℕ → List ContractCall → S → Batches S
  unfolding execute_groups chunked
  execute_in_order batch_size calls s = in_groups (chunked calls batch_size) s

  -- From the block of the contract's deployment on.
  unfoldable pub execute_from : ℕ → ℕ → BlockRef → List ContractCall → S → Batches S
  unfolding execute_in_order
  execute_from deployment_block batch_size anchor calls s =
      if ltb anchor.number deployment_block || anchor.number == 0
      then (err (raised unsupported_range), s)
      else execute_in_order batch_size calls s
