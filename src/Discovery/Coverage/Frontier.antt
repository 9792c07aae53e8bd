-- ===== src/Discovery/Coverage/Frontier.antt =====
-- `contiguous_frontier`: the first block from the start on that no range covers.
use rpc_state_indexer.Prelude.{
  ℕ, suc, ◌<◌, ◌≤◌, ◌≡◌, refl, sym, ◌∙◌, false, true, List, [], ◌∷◌, All, arith,
}
use rpc_state_indexer.Discovery.Coverage.{
  BlockRange, frontier_loop, contiguous_frontier, merge_coverage, covered, IsValid, Separated,
}
use rpc_state_indexer.Discovery.Coverage.Merge.{covered-merge_coverage, merge_coverage-Separated}

pub not-covered-before :
    (n : ℕ) (rs : List BlockRange) (b : ℕ) → Separated n rs → b < n → covered rs b ≡ false
not-covered-before n [] b h lt = refl
not-covered-before n (r ∷ rs) b h lt =
    ground (arith, not-covered-before (suc r.end_exclusive) rs b h.2)

le-frontier_loop : (f : ℕ) (rs : List BlockRange) → f ≤ frontier_loop f rs
unfolding frontier_loop
le-frontier_loop f [] = omega arith
le-frontier_loop f (r ∷ rs) =
    ground (arith, le-frontier_loop f rs, le-frontier_loop r.end_exclusive rs)

frontier_loop-covered :
    (n f : ℕ) (rs : List BlockRange) (b : ℕ) → f ≤ b → b < frontier_loop f rs → covered rs b ≡ true
unfolding frontier_loop
frontier_loop-covered n f [] b le lt = absurd (omega arith)
frontier_loop-covered n f (r ∷ rs) b le lt =
    ground (arith, frontier_loop-covered n f rs b, frontier_loop-covered n r.end_exclusive rs b)

frontier_loop-uncovered :
    (n f : ℕ) (rs : List BlockRange) → Separated n rs → covered rs (frontier_loop f rs) ≡ false
unfolding frontier_loop
frontier_loop-uncovered n f [] h = refl
frontier_loop-uncovered n f (r ∷ rs) h = ground (
  arith,
  le-frontier_loop f rs,
  le-frontier_loop r.end_exclusive rs,
  frontier_loop-uncovered (suc r.end_exclusive) f rs h.2,
  frontier_loop-uncovered (suc r.end_exclusive) r.end_exclusive rs h.2,
  not-covered-before (suc r.end_exclusive) rs f h.2,
)

-- Over ranges that the constructor accepts, `contiguous_frontier` returns a block not before the
-- coverage start; every block from the start up to it is covered, and it is itself not covered.
pub contiguous_frontier-first_uncovered :
    (coverage_start : ℕ) (ranges : List BlockRange)
    → All IsValid ranges
    → let frontier = contiguous_frontier coverage_start ranges in
      (coverage_start ≤ frontier)
      × ((b : ℕ) → coverage_start ≤ b → b < frontier → covered ranges b ≡ true)
      × (covered ranges frontier ≡ false)
unfolding contiguous_frontier
contiguous_frontier-first_uncovered start ranges v =
    let merged = merge_coverage ranges in
    (
      le-frontier_loop start merged,
      (λ b le lt.
          sym (covered-merge_coverage ranges b) ∙ frontier_loop-covered 0 start merged b le lt),
      sym (covered-merge_coverage ranges (frontier_loop start merged))
          ∙ frontier_loop-uncovered 0 start merged (merge_coverage-Separated ranges v),
    )
