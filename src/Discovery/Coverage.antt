-- ===== src/Discovery/Coverage.antt =====
-- `BlockRange`, `merge_coverage`, `contiguous_frontier` and `coverage_gaps` of core/discovery.py.
-- Block numbers are naturals, so the constructor's test for a negative start is always passed;
-- its test for an empty range is `make`. The functions that only build ranges which pass that
-- test build them directly, and the modules below prove that they pass.
pub mod Merge
pub mod Gaps
pub mod Frontier
use rpc_state_indexer.Prelude.{
  ℕ, suc, ◌+◌, ◌-◌, ◌/◌, ◌<◌, ◌≤◌, max, min, Bool, ◌&&◌, ◌||◌, false, List, [], ◌∷◌, Result, ok,
  err, ltb, leb, ◌==◌, if◌then◌else◌, true,
}

pub record BlockRange : Type 0 where
  pub start : ℕ
  pub end_exclusive : ℕ

pub data RangeError : Type 0 where
  empty_range one_block : RangeError

-- `__post_init__`.
unfoldable pub make : ℕ → ℕ → Result RangeError BlockRange
make start stop =
    if leb stop start then err empty_range else ok (record { start = start; end_exclusive = stop })

abbrev pub size : BlockRange → ℕ
size r = r.end_exclusive - r.start

abbrev pub middle : BlockRange → ℕ
middle r = r.start + size r / 2

abbrev pub lower_half : BlockRange → BlockRange
lower_half r = record r { end_exclusive = middle r }

abbrev pub upper_half : BlockRange → BlockRange
upper_half r = record r { start = middle r }

unfoldable pub split : BlockRange → Result RangeError (BlockRange × BlockRange)
split r = if ltb (size r) 2 then err one_block else ok (lower_half r, upper_half r)

-- The order of the dataclass: by start, then by end.
abbrev pub range_leb : BlockRange → BlockRange → Bool
range_leb a b = ltb a.start b.start || a.start == b.start && leb a.end_exclusive b.end_exclusive

unfoldable pub insert_range : BlockRange → List BlockRange → List BlockRange
insert_range r [] = r ∷ []
insert_range r (s ∷ rest) = if range_leb r s then r ∷ s ∷ rest else s ∷ insert_range r rest

-- `sorted(ranges)`.
unfoldable pub sort_ranges : List BlockRange → List BlockRange
unfolding insert_range
sort_ranges [] = []
sort_ranges (r ∷ rest) = insert_range r (sort_ranges rest)

-- The loop, with `merged[-1]` as `previous`; what stands before it in `merged` is final.
unfoldable pub merge_loop : BlockRange → List BlockRange → List BlockRange
merge_loop previous [] = previous ∷ []
merge_loop previous (current ∷ rest) = elim (leb current.start previous.end_exclusive) [
  | true ↦
      merge_loop
        (record previous { end_exclusive = max previous.end_exclusive current.end_exclusive }) rest
  | false ↦ previous ∷ merge_loop current rest
]

unfoldable pub merge_ordered : List BlockRange → List BlockRange
unfolding merge_loop
merge_ordered [] = []
merge_ordered (first ∷ rest) = merge_loop first rest

unfoldable pub merge_coverage : List BlockRange → List BlockRange
unfolding merge_ordered sort_ranges
merge_coverage ranges = merge_ordered (sort_ranges ranges)

unfoldable pub frontier_loop : ℕ → List BlockRange → ℕ
frontier_loop frontier [] = frontier
frontier_loop frontier (r ∷ rest) = elim (leb r.end_exclusive frontier) [
  | true ↦ frontier_loop frontier rest
  | false ↦ elim (ltb frontier r.start) [
    | true ↦ frontier
    | false ↦ frontier_loop r.end_exclusive rest
  ]
]

unfoldable pub contiguous_frontier : ℕ → List BlockRange → ℕ
unfolding frontier_loop merge_coverage
contiguous_frontier coverage_start ranges = frontier_loop coverage_start (merge_coverage ranges)

-- What follows the loop: the gap between the cursor and the end of the required range.
abbrev pub last_gap : BlockRange → ℕ → List BlockRange
last_gap required cursor =
    if ltb cursor required.end_exclusive
    then record { start = cursor; end_exclusive = required.end_exclusive } ∷ []
    else []

-- `if clipped_start > cursor: gaps.append(...)`, before the gaps found later.
abbrev pub gap_before : ℕ → ℕ → List BlockRange → List BlockRange
gap_before cursor clipped_start later =
    if ltb cursor clipped_start
    then record { start = cursor; end_exclusive = clipped_start } ∷ later
    else later

unfoldable pub gaps_loop : BlockRange → ℕ → List BlockRange → List BlockRange
gaps_loop required cursor [] = last_gap required cursor
gaps_loop required cursor (covered ∷ rest) = elim (leb covered.end_exclusive required.start) [
  | true ↦ gaps_loop required cursor rest
  | false ↦ elim (leb required.end_exclusive covered.start) [
    | true ↦ last_gap required cursor
    | false ↦
        let clipped_start = max covered.start required.start in
        let clipped_end = min covered.end_exclusive required.end_exclusive in
        let cursor' = max cursor clipped_end in
        elim (leb required.end_exclusive cursor') [
          | true ↦ gap_before cursor clipped_start (last_gap required cursor')
          | false ↦ gap_before cursor clipped_start (gaps_loop required cursor' rest)
        ]
  ]
]

unfoldable pub coverage_gaps : BlockRange → List BlockRange → List BlockRange
unfolding gaps_loop merge_coverage
coverage_gaps required completed = gaps_loop required required.start (merge_coverage completed)

-- The specification's vocabulary: which blocks lie in a range, and in one of several.
abbrev pub contains : BlockRange → ℕ → Bool
contains r b = leb r.start b && ltb b r.end_exclusive

abbrev pub covered : List BlockRange → ℕ → Bool
covered [] b = false
covered (r ∷ rest) b = contains r b || covered rest b

-- What the constructor accepts.
abbrev pub IsValid : BlockRange → Type 0
IsValid r = r.start < r.end_exclusive

-- In order of the starts, from `n` on.
abbrev pub StartsFrom : ℕ → List BlockRange → Type 0
StartsFrom n [] = Unit {0}
StartsFrom n (r ∷ rest) = (n ≤ r.start) × StartsFrom r.start rest

-- In order from `n` on, none empty, with an uncovered block between any two.
abbrev pub Separated : ℕ → List BlockRange → Type 0
Separated n [] = Unit {0}
Separated n (r ∷ rest) =
    (n ≤ r.start) × (r.start < r.end_exclusive) × Separated (suc r.end_exclusive) rest
