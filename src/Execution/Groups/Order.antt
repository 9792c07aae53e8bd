-- ===== src/Execution/Groups/Order.antt =====
-- A whole execution returns the results of all calls in their order.
use mathlib.Core.Path.{subst}
use rpc_state_indexer.Prelude.{
  ℕ, ◌<◌, refl, sym, inl, inr, List, [], ◌∷◌, Result, length, ltb, ◌==◌, ◌||◌, All, Bool-cases,
  arith,
}
use rpc_state_indexer.Domain.{BlockRef}
use rpc_state_indexer.Execution.Base.{ContractCall, VerifiedBatchResult, ExecutionFault}
use rpc_state_indexer.Execution.Planner.Laws.{concat, Sized, concat-chunked}
use rpc_state_indexer.Execution.Adaptive.{
  Batches, Attempts, Complete, then_join-Complete, execute_adaptive-Complete, execute_adaptive,
}
use rpc_state_indexer.Execution.Groups.{execute_groups, execute_in_order, execute_from}

module _ {S : Type 0} (once : List ContractCall → S → Result ExecutionFault VerifiedBatchResult × S)
    (attempts : (calls : List ContractCall) (s : S) → Attempts calls (once calls s)) where
  execute_groups-Complete :
      (size : ℕ) (groups : List (List ContractCall)) (s : S)
      → All (Sized size) groups
      → Complete (concat groups) (execute_groups once groups s)
  unfolding execute_groups
  execute_groups-Complete size [] s sized = refl
  execute_groups-Complete size (group ∷ groups) s ((some_calls, small), sized) =
      then_join-Complete group (concat groups) (execute_adaptive once (length group) group s) _
        (execute_adaptive-Complete once attempts (length group) group s some_calls (omega arith))
        (λ s'. execute_groups-Complete size groups s' sized)

  -- Nothing is lost at the seams of the batches.
  execute_in_order-Complete :
      (size : ℕ) (calls : List ContractCall) (s : S)
      → 0 < size
      → Complete calls (execute_in_order once size calls s)
  unfolding execute_in_order
  execute_in_order-Complete size calls s positive =
      let (groups, e, same, sized) = concat-chunked calls size positive in
      subst (λ (r : Batches S). Complete calls r) (sym (rw e refl))
        (subst (λ (cs : List ContractCall). Complete cs (execute_groups once groups s)) same
          (execute_groups-Complete size groups s sized))

  -- The same from the deployment on; at earlier blocks and at block 0 the execution raises.
  pub execute_from-Complete :
      (deployment size : ℕ) (anchor : BlockRef) (calls : List ContractCall) (s : S)
      → 0 < size
      → Complete calls (execute_from once deployment size anchor calls s)
  unfolding execute_from
  execute_from-Complete deployment size anchor calls s positive =
      elim (Bool-cases (ltb anchor.number deployment || anchor.number == 0)) [
        | inl e ↦ rw (execute_from, e) (λ h. cc)
        | inr e ↦ rw (execute_from, e) (execute_in_order-Complete size calls s positive)
      ]
