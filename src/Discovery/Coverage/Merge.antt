-- ===== src/Discovery/Coverage/Merge.antt =====
-- What `merge_coverage` returns: the same blocks, in ranges that are in order and do not touch.
use rpc_state_indexer.Prelude.{ℕ, suc, ◌≤◌, ◌≡◌, refl, ◌∙◌, List, [], ◌∷◌, All, arith, max}
use rpc_state_indexer.Discovery.Coverage.{
  BlockRange, insert_range, sort_ranges, merge_loop, merge_ordered, merge_coverage, covered,
  IsValid, StartsFrom, Separated,
}

covered-insert :
    (r : BlockRange) (rs : List BlockRange) (b : ℕ)
    → covered (insert_range r rs) b ≡ covered (r ∷ rs) b
unfolding insert_range
covered-insert r [] b = refl
covered-insert r (s ∷ rs) b = ground (arith, covered-insert r rs b)

covered-sort : (rs : List BlockRange) (b : ℕ) → covered (sort_ranges rs) b ≡ covered rs b
unfolding sort_ranges
covered-sort [] b = refl
covered-sort (r ∷ rs) b = ground (arith, covered-insert r (sort_ranges rs) b, covered-sort rs b)

insert-StartsFrom :
    (n : ℕ) (r : BlockRange) (rs : List BlockRange)
    → n ≤ r.start
    → StartsFrom n rs
    → StartsFrom n (insert_range r rs)
unfolding insert_range
insert-StartsFrom n r [] h v = (h, tt)
insert-StartsFrom n r (s ∷ rs) h v = ground (arith, insert-StartsFrom s.start r rs)

insert-IsValid :
    (r : BlockRange) (rs : List BlockRange)
    → IsValid r
    → All IsValid rs
    → All IsValid (insert_range r rs)
unfolding insert_range
insert-IsValid r [] h v = (h, tt)
insert-IsValid r (s ∷ rs) h v = ground (arith, insert-IsValid r rs h v.1)

sort-StartsFrom : (rs : List BlockRange) → StartsFrom 0 (sort_ranges rs)
unfolding sort_ranges
sort-StartsFrom [] = tt
sort-StartsFrom (r ∷ rs) = insert-StartsFrom 0 r (sort_ranges rs) (omega arith) (sort-StartsFrom rs)

sort-IsValid : (rs : List BlockRange) → All IsValid rs → All IsValid (sort_ranges rs)
unfolding sort_ranges
sort-IsValid [] v = tt
sort-IsValid (r ∷ rs) v = insert-IsValid r (sort_ranges rs) v.0 (sort-IsValid rs v.1)

StartsFrom-mono : (m n : ℕ) (rs : List BlockRange) → m ≤ n → StartsFrom n rs → StartsFrom m rs
StartsFrom-mono m n [] h v = tt
StartsFrom-mono m n (r ∷ rs) h v = (omega arith, v.1)

covered-merge_loop :
    (previous : BlockRange) (rest : List BlockRange) (b : ℕ)
    → StartsFrom previous.start rest
    → covered (merge_loop previous rest) b ≡ covered (previous ∷ rest) b
unfolding merge_loop
covered-merge_loop previous [] b h = refl
covered-merge_loop previous (current ∷ rest) b h =
    let joined : BlockRange = record previous {
      end_exclusive = max previous.end_exclusive current.end_exclusive;
    } in
    ground (
      arith,
      covered-merge_loop current rest b h.1,
      covered-merge_loop joined rest b (StartsFrom-mono previous.start current.start rest h.0 h.1),
    )

-- A merged range starts where `previous` did; the ranges after it start beyond its end.
merge_loop-Separated :
    (n : ℕ) (previous : BlockRange) (rest : List BlockRange)
    → n ≤ previous.start
    → IsValid previous
    → StartsFrom previous.start rest
    → All IsValid rest
    → Separated n (merge_loop previous rest)
unfolding merge_loop
merge_loop-Separated n previous [] h v o w = (h, v, tt)
merge_loop-Separated n previous (current ∷ rest) h v o w =
    let joined : BlockRange = record previous {
      end_exclusive = max previous.end_exclusive current.end_exclusive;
    } in
    ground (
      arith,
      merge_loop-Separated (suc previous.end_exclusive) current rest,
      merge_loop-Separated n joined rest h,
      StartsFrom-mono previous.start current.start rest,
    )

covered-merge_ordered :
    (rs : List BlockRange) (b : ℕ) → StartsFrom 0 rs → covered (merge_ordered rs) b ≡ covered rs b
unfolding merge_ordered
covered-merge_ordered [] b h = refl
covered-merge_ordered (first ∷ rest) b h = covered-merge_loop first rest b h.1

merge_ordered-Separated :
    (rs : List BlockRange) → StartsFrom 0 rs → All IsValid rs → Separated 0 (merge_ordered rs)
unfolding merge_ordered
merge_ordered-Separated [] h v = tt
merge_ordered-Separated (first ∷ rest) h v = merge_loop-Separated 0 first rest h.0 v.0 h.1 v.1

-- A block is covered by the merged ranges exactly when one of the given ranges covers it.
pub covered-merge_coverage :
    (ranges : List BlockRange) (b : ℕ) → covered (merge_coverage ranges) b ≡ covered ranges b
unfolding merge_coverage
covered-merge_coverage ranges b =
    covered-merge_ordered (sort_ranges ranges) b (sort-StartsFrom ranges) ∙ covered-sort ranges b

-- From ranges that the constructor accepts, `merge_coverage` returns non-empty ranges in
-- ascending order with at least one uncovered block between any two neighbours.
pub merge_coverage-Separated :
    (ranges : List BlockRange) → All IsValid ranges → Separated 0 (merge_coverage ranges)
unfolding merge_coverage
merge_coverage-Separated ranges v =
    merge_ordered-Separated (sort_ranges ranges) (sort-StartsFrom ranges) (sort-IsValid ranges v)
