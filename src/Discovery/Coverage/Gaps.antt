-- ===== src/Discovery/Coverage/Gaps.antt =====
-- `coverage_gaps`: exactly the blocks of the required range that no completed range covers.
use native.Mathlib.Nat.{le_refl}
use rpc_state_indexer.Prelude.{
  ℕ, suc, ◌<◌, ◌≤◌, ◌≡◌, refl, ◌∙◌, false, true, not, ◌&&◌, List, [], ◌∷◌, All, arith, max, min,
  leb, ltb, ltb→lt, ◌||◌, Bool, Bool-cases, inl, inr, tests,
}
use rpc_state_indexer.Discovery.Coverage.{
  BlockRange, gaps_loop, coverage_gaps, merge_coverage, contains, covered, gap_before, last_gap,
  IsValid, Separated,
}
use rpc_state_indexer.Discovery.Coverage.Merge.{covered-merge_coverage, merge_coverage-Separated}
use rpc_state_indexer.Discovery.Coverage.Frontier.{not-covered-before}

abbrev open_from : BlockRange → ℕ → List BlockRange → ℕ → Bool
open_from required cursor rs b = leb cursor b && ltb b required.end_exclusive && not (covered rs b)

covered-gap_before :
    (cursor clipped_start b : ℕ) (later : List BlockRange)
    → covered (gap_before cursor clipped_start later) b
      ≡ (leb cursor b && ltb b clipped_start || covered later b)
covered-gap_before cursor clipped_start b later = ground arith

-- One range that meets the required one: the gap before it, and what is left after it.
open_from-step :
    (required r : BlockRange) (cursor b : ℕ) (rs : List BlockRange)
    → Separated (suc r.end_exclusive) rs
    → required.start ≤ cursor
    → r.start < required.end_exclusive
    → required.start < r.end_exclusive
    → IsValid r
    → (leb cursor b && ltb b (max r.start required.start)
        || open_from required (max cursor (min r.end_exclusive required.end_exclusive)) rs b)
      ≡ open_from required cursor (r ∷ rs) b
open_from-step required r cursor b rs h le lt lt' v =
    ground (arith, not-covered-before (suc r.end_exclusive) rs b h)

open_from-end :
    (required : BlockRange) (cursor b : ℕ) (rs : List BlockRange)
    → required.end_exclusive ≤ cursor
    → covered (last_gap required cursor) b ≡ open_from required cursor rs b
open_from-end required cursor b rs le = ground arith

covered-gaps_loop :
    (required : BlockRange) (n cursor : ℕ) (rs : List BlockRange) (b : ℕ)
    → Separated n rs
    → required.start ≤ cursor
    → covered (gaps_loop required cursor rs) b ≡ open_from required cursor rs b
unfolding gaps_loop
covered-gaps_loop required n cursor [] b h le = ground arith
covered-gaps_loop required n cursor (r ∷ rs) b h le =
    elim (Bool-cases (leb r.end_exclusive required.start)) [
      | inl before ↦
          rw (before, gaps_loop)
            (covered-gaps_loop required (suc r.end_exclusive) cursor rs b h.2 le ∙ ground arith)
      | inr meets ↦ elim (Bool-cases (leb required.end_exclusive r.start)) [
        | inl after ↦
            rw (meets, after, gaps_loop)
              (ground (arith, not-covered-before (suc r.end_exclusive) rs b h.2))
        | inr inside ↦
            let cursor' = max cursor (min r.end_exclusive required.end_exclusive) in
            elim (Bool-cases (leb required.end_exclusive cursor')) [
              | inl done ↦
                  rw (meets, inside, done, gaps_loop)
                    (covered-gap_before cursor (max r.start required.start) b _
                      ∙ rw (open_from-end required cursor' b rs (omega tests)) (
                          open_from-step required r cursor b rs h.2 le (ground arith) (ground arith)
                            h.1))
              | inr more ↦
                  rw (meets, inside, more, gaps_loop)
                    (covered-gap_before cursor (max r.start required.start) b _
                      ∙ rw
                          (covered-gaps_loop required (suc r.end_exclusive) cursor' rs b h.2
                            (omega arith))
                          (open_from-step required r cursor b rs h.2 le (ground arith)
                            (ground arith) h.1))
            ]
      ]
    ]

gap_before-IsValid :
    (cursor clipped_start : ℕ) (later : List BlockRange)
    → All IsValid later
    → All IsValid (gap_before cursor clipped_start later)
gap_before-IsValid cursor clipped_start later v = elim (Bool-cases (ltb cursor clipped_start)) [
  | inl gap ↦ rw gap (ltb→lt _ _ gap, v)
  | inr none ↦ rw none v
]

last_gap-IsValid : (required : BlockRange) (cursor : ℕ) → All IsValid (last_gap required cursor)
last_gap-IsValid required cursor = gap_before-IsValid cursor required.end_exclusive [] tt

gaps_loop-IsValid :
    (required : BlockRange) (cursor : ℕ) (rs : List BlockRange)
    → All IsValid (gaps_loop required cursor rs)
unfolding gaps_loop
gaps_loop-IsValid required cursor [] = last_gap-IsValid required cursor
gaps_loop-IsValid required cursor (r ∷ rs) =
    elim (Bool-cases (leb r.end_exclusive required.start)) [
      | inl before ↦ rw (before, gaps_loop) (gaps_loop-IsValid required cursor rs)
      | inr meets ↦ elim (Bool-cases (leb required.end_exclusive r.start)) [
        | inl after ↦ rw (meets, after, gaps_loop) (last_gap-IsValid required cursor)
        | inr inside ↦
            let cursor' = max cursor (min r.end_exclusive required.end_exclusive) in
            elim (Bool-cases (leb required.end_exclusive cursor')) [
              | inl done ↦
                  rw (meets, inside, done, gaps_loop)
                    (gap_before-IsValid _ _ _ (last_gap-IsValid required cursor'))
              | inr more ↦
                  rw (meets, inside, more, gaps_loop)
                    (gap_before-IsValid _ _ _ (gaps_loop-IsValid required cursor' rs))
            ]
      ]
    ]

-- Every gap is a range that the constructor accepts, whatever the completed ranges are.
pub coverage_gaps-IsValid :
    (required : BlockRange) (completed : List BlockRange)
    → All IsValid (coverage_gaps required completed)
unfolding coverage_gaps
coverage_gaps-IsValid required completed =
    gaps_loop-IsValid required required.start (merge_coverage completed)

-- A block lies in one of the gaps that `coverage_gaps` lists exactly when it lies in the required
-- range and no completed range covers it.
pub covered-coverage_gaps :
    (required : BlockRange) (completed : List BlockRange) (b : ℕ)
    → All IsValid completed
    → covered (coverage_gaps required completed) b
      ≡ (contains required b && not (covered completed b))
unfolding coverage_gaps
covered-coverage_gaps required completed b v =
    covered-gaps_loop required 0 required.start (merge_coverage completed) b
      (merge_coverage-Separated completed v) (le_refl _)
    ∙ ground (arith, covered-merge_coverage completed b)

-- Where the completed ranges cover the required one, there is no gap.
pub coverage_gaps-nil :
    (required : BlockRange) (completed : List BlockRange)
    → All IsValid completed
    → ((b : ℕ) → contains required b ≡ true → covered completed b ≡ true)
    → coverage_gaps required completed ≡ []
coverage_gaps-nil required completed v full =
    go (coverage_gaps required completed) (coverage_gaps-IsValid required completed)
      λ b. covered-coverage_gaps required completed b v ∙ ground (arith, full b)
  where
    go : (gs : List BlockRange) → All IsValid gs → ((b : ℕ) → covered gs b ≡ false) → gs ≡ []
    go [] w h = refl
    go (g ∷ gs) w h = absurd (let here = h g.start in ground (arith, w.0))
