-- ===== src/Execution/Planner/Laws.antt =====
-- The batches are the calls in order, none empty and none too large.
use rpc_state_indexer.Prelude.{
  ℕ, zero, suc, ◌≤◌, ◌<◌, ◌≡◌, refl, ap, ◌∙◌, List, [], ◌∷◌, ◌++◌, ok, length, take, drop,
  length-take, length-drop, take-append-drop, ltb, arith, All, false,
}
use rpc_state_indexer.Execution.Planner.{chunk_loop, chunked}

abbrev pub concat {ℓ} : {A : Type ℓ} → List (List A) → List A
concat [] = []
concat (xs ∷ xss) = xs ++ concat xss

abbrev pub Sized {ℓ} : {A : Type ℓ} → ℕ → List A → Type 0
Sized size batch = (0 < length batch) × (length batch ≤ size)

module _ {ℓ} {A : Type ℓ} where
  concat-chunk_loop :
      (fuel size : ℕ) (values : List A)
      → 0 < size
      → length values ≤ fuel
      → concat (chunk_loop fuel size values) ≡ values
  unfolding chunk_loop
  concat-chunk_loop zero size [] positive enough = refl
  concat-chunk_loop zero size (v ∷ values) positive enough = absurd (omega arith)
  concat-chunk_loop (suc fuel) size [] positive enough = refl
  concat-chunk_loop (suc fuel) size (v ∷ values) positive enough =
      let d = length-drop size (v ∷ values) in
      let rest = concat-chunk_loop fuel size (drop size (v ∷ values)) positive (omega arith) in
      ap (λ (xs : List A). take size (v ∷ values) ++ xs) rest ∙ take-append-drop size (v ∷ values)

  chunk_loop-Sized :
      (fuel size : ℕ) (values : List A) → 0 < size → All (Sized size) (chunk_loop fuel size values)
  unfolding chunk_loop
  chunk_loop-Sized zero size values positive = tt
  chunk_loop-Sized (suc fuel) size [] positive = tt
  chunk_loop-Sized (suc fuel) size (v ∷ values) positive =
      let t = length-take size (v ∷ values) in
      ((omega arith, omega arith), chunk_loop-Sized fuel size (drop size (v ∷ values)) positive)

  -- For a positive size `chunked` yields batches that are the values in order, each with at least
  -- one value and with at most `size` of them.
  pub concat-chunked :
      (values : List A) (size : ℕ)
      → 0 < size
      → (batches : List (List A)) × (chunked values size ≡ ok batches)
        × (concat batches ≡ values)
        × All (Sized size) batches
  unfolding chunked
  concat-chunked values size positive =
      let e : ltb size 1 ≡ false = ground arith in
      (
        chunk_loop (length values) size values,
        rw e refl,
        concat-chunk_loop (length values) size values positive (omega arith),
        chunk_loop-Sized (length values) size values positive,
      )
