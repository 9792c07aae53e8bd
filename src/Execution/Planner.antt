-- ===== src/Execution/Planner.antt =====
-- `chunked` of execution/batch_planner.py.
pub mod Laws
use rpc_state_indexer.Prelude.{
  ℕ, zero, suc, ◌+◌, List, [], ◌∷◌, Result, ok, err, length, take, drop, ltb, if◌then◌else◌,
}

pub data PlanFault : Type 0 where
  size_not_positive : PlanFault

-- `range(0, len(values), size)`: the slices from the present offset on, at most one for each value.
unfoldable pub chunk_loop {ℓ} : {A : Type ℓ} → ℕ → ℕ → List A → List (List A)
chunk_loop zero size values = []
chunk_loop (suc fuel) size [] = []
chunk_loop (suc fuel) size (v ∷ values) =
    take size (v ∷ values) ∷ chunk_loop fuel size (drop size (v ∷ values))

unfoldable pub chunked {ℓ} : {A : Type ℓ} → List A → ℕ → Result PlanFault (List (List A))
unfolding chunk_loop
chunked values size =
    if ltb size 1 then err size_not_positive else ok (chunk_loop (length values) size values)
