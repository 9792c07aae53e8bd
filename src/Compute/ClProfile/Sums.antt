-- ===== src/Compute/ClProfile/Sums.antt =====
-- The active liquidity of a segment is the sum over the ticks at or below its lower bound.
use mathlib.Core.Path.{subst}
use rpc_state_indexer.Prelude.{
  ℕ, zero, suc, ◌-◌, ◌≡◌, refl, sym, ap, ◌∙◌, false, inl, inr, some, List, [], ◌∷◌, ok, >>=-returns,
  length, get_elem?, take, Bool-cases, arith,
}
use rpc_state_indexer.Prelude.Int.{ℤ, pos, ◌+ℤ◌, ◌≤ℤ◌, ltb_ℤ, +ℤ_parts, eq_of_parts}
use rpc_state_indexer.Prelude.Text.{Text}
use rpc_state_indexer.Compute.ClProfile.{
  TickRow, PoolState, ProfileRow, segment, segments_loop, segments,
}

abbrev pub sum_net : List TickRow → ℤ
sum_net [] = pos 0
sum_net (t ∷ ts) = t.liquidity_net +ℤ sum_net ts

add_assoc_ℤ : (a b c : ℤ) → (a +ℤ b) +ℤ c ≡ a +ℤ (b +ℤ c)
add_assoc_ℤ a b c =
    let p = +ℤ_parts a b in
    let q = +ℤ_parts (a +ℤ b) c in
    let r = +ℤ_parts b c in
    let s = +ℤ_parts a (b +ℤ c) in eq_of_parts ((a +ℤ b) +ℤ c) (a +ℤ (b +ℤ c)) (omega arith)

add-zero_ℤ : (a : ℤ) → a +ℤ pos 0 ≡ a
add-zero_ℤ a = let p = +ℤ_parts a (pos 0) in eq_of_parts (a +ℤ pos 0) a (omega arith)

zero-add_ℤ : (a : ℤ) → pos 0 +ℤ a ≡ a
zero-add_ℤ a = let p = +ℤ_parts (pos 0) a in eq_of_parts (pos 0 +ℤ a) a (omega arith)

-- The row between two neighbours of the ticks, with the sum up to the lower one.
abbrev pub Segment : ℤ → List TickRow → ℕ → ProfileRow → Type 0
Segment before ticks i row =
    (lower : TickRow) × (upper : TickRow) × (get_elem? ticks i ≡ some lower)
    × (get_elem? ticks (suc i) ≡ some upper)
    × (row.tick_lower ≡ lower.tick)
    × (row.tick_upper ≡ upper.tick)
    × (row.active_liquidity ≡ before +ℤ sum_net (take (suc i) ticks))
    × (pos 0 ≤ℤ row.active_liquidity)

module _ (chain_id : ℕ) (snapshot_date : Text) (state : PoolState) where
  first_step :
      (before : ℤ) (lower upper : TickRow) (rest : List TickRow) (rows : List ProfileRow)
      → segments_loop chain_id snapshot_date state before (lower ∷ upper ∷ rest) ≡ ok rows
      → let sum = before +ℤ lower.liquidity_net in
        (pos 0 ≤ℤ sum)
        × (later : List ProfileRow) × (segments_loop chain_id snapshot_date state sum (upper ∷ rest)
            ≡ ok later)
        × (segment chain_id snapshot_date state lower upper sum ∷ later ≡ rows)
  unfolding segments_loop
  first_step before lower upper rest rows h =
      let sum = before +ℤ lower.liquidity_net in
      elim (Bool-cases (ltb_ℤ sum (pos 0))) [
        | inl e ↦ absurd (cc (rw (segments_loop, e) at h))
        | inr e ↦
            let (later, found, same) =
              >>=-returns (segments_loop chain_id snapshot_date state sum (upper ∷ rest)) _
                (rw (segments_loop, e) at h) in
            (ground arith, later, found, cc same)
      ]

  segments_loop-Segment :
      (before : ℤ) (ticks : List TickRow) (rows : List ProfileRow)
      → segments_loop chain_id snapshot_date state before ticks ≡ ok rows
      → (length rows ≡ length ticks - 1)
        × ((i : ℕ) (row : ProfileRow) → get_elem? rows i ≡ some row → Segment before ticks i row)
  unfolding segments_loop
  segments_loop-Segment before [] rows h =
      let e : [] ≡ rows = cc h in (rw (sym e) refl, λ i row got. absurd (cc (rw (sym e) at got)))
  segments_loop-Segment before (t ∷ []) rows h =
      let e : [] ≡ rows = cc h in (rw (sym e) refl, λ i row got. absurd (cc (rw (sym e) at got)))
  segments_loop-Segment before (lower ∷ upper ∷ rest) rows h =
      let (good, later, found, same) = first_step before lower upper rest rows h in
      let sum = before +ℤ lower.liquidity_net in
      let (size, each) = segments_loop-Segment sum (upper ∷ rest) later found in
      (
        rw (sym same) (omega arith),
        λ i row got.
            elim i
                as (λ (j : ℕ).
                  get_elem? rows j ≡ some row → Segment before (lower ∷ upper ∷ rest) j row) [
                    | zero ↦ λ at.
                        let this : segment chain_id snapshot_date state lower upper sum ≡ row =
                          cc (rw (sym same) at at) in
                        subst (λ (r : ProfileRow). Segment before (lower ∷ upper ∷ rest) 0 r) this
                          (
                            lower,
                            upper,
                            refl,
                            refl,
                            refl,
                            refl,
                            ap (λ (k : ℤ). before +ℤ k) (sym (add-zero_ℤ lower.liquidity_net)),
                            good,
                          )
                    | suc j ↦ λ at.
                        let (l, u, a, b, c, d, e, f) = each j row (rw (sym same) at at) in
                        (
                          l,
                          u,
                          a,
                          b,
                          c,
                          d,
                          e
                              ∙ add_assoc_ℤ before lower.liquidity_net
                                  (sum_net (take (suc j) (upper ∷ rest))),
                          f,
                        )
                  ]
              got,
      )

  segments_loop-returns :
      (before : ℤ) (ticks : List TickRow)
      → ((i : ℕ) → pos 0 ≤ℤ before +ℤ sum_net (take i ticks))
      → (rows : List ProfileRow) × (segments_loop chain_id snapshot_date state before ticks
          ≡ ok rows)
  unfolding segments_loop
  segments_loop-returns before [] sums = ([], refl)
  segments_loop-returns before (t ∷ []) sums = ([], refl)
  segments_loop-returns before (lower ∷ upper ∷ rest) sums =
      let sum = before +ℤ lower.liquidity_net in
      let (rows, e) = segments_loop-returns sum (upper ∷ rest) (λ i.
        subst (λ (k : ℤ). pos 0 ≤ℤ k) (sym (add_assoc_ℤ before lower.liquidity_net _))
          (sums (suc i))) in
      let good : pos 0 ≤ℤ sum =
        subst (λ (k : ℤ). pos 0 ≤ℤ before +ℤ k) (add-zero_ℤ lower.liquidity_net) (sums 1) in
      let t : ltb_ℤ sum (pos 0) ≡ false = ground arith in
      (segment chain_id snapshot_date state lower upper sum ∷ rows, rw (segments_loop, t, e) refl)

  -- When `_segments` returns there is one row for each pair of neighbouring ticks, in order, from
  -- the lower to the upper one; its active liquidity is the sum of the net liquidities of all ticks
  -- up to the lower one, and is not negative.
  pub segments-Segment :
      (ticks : List TickRow) (rows : List ProfileRow)
      → segments chain_id snapshot_date state ticks ≡ ok rows
      → (length rows ≡ length ticks - 1)
        × ((i : ℕ) (row : ProfileRow) → get_elem? rows i ≡ some row → Segment (pos 0) ticks i row)
  unfolding segments
  segments-Segment ticks rows h = segments_loop-Segment (pos 0) ticks rows h

  -- `_segments` returns when no sum of the net liquidities up to a tick is negative.
  pub segments-returns :
      (ticks : List TickRow)
      → ((i : ℕ) → pos 0 ≤ℤ sum_net (take i ticks))
      → (rows : List ProfileRow) × (segments chain_id snapshot_date state ticks ≡ ok rows)
  unfolding segments
  segments-returns ticks sums =
      segments_loop-returns (pos 0) ticks
        (λ i. subst (λ (k : ℤ). pos 0 ≤ℤ k) (sym (zero-add_ℤ _)) (sums i))
