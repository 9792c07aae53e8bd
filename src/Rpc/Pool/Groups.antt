-- ===== src/Rpc/Pool/Groups.antt =====
-- `select_distinct_groups` returns endpoints of distinct groups, as many as asked for.
use mathlib.Core.List.{append-nil, append_assoc}
use rpc_state_indexer.Prelude.{
  ℕ, zero, suc, ◌<◌, ◌≡◌, refl, ap, sym, ◌∙◌, true, false, not, inl, inr, List, [], ◌∷◌, ◌++◌,
  Option, Result, ok, err, length, length-append, take, if◌then◌else◌, Bool-cases, ltb, leb, ◌==◌,
  arith,
}
use rpc_state_indexer.Prelude.Text.{Text, text_in}
use rpc_state_indexer.Rpc.Endpoint.{RpcEndpoint, can_serve}
use rpc_state_indexer.Rpc.Pool.{
  EndpointPool, PoolFault, no_healthy_endpoint, groups_loop, select_distinct_groups,
}

-- The endpoints that can serve, the first of each group that is not among `groups`.
unfoldable pub firsts : ℕ → Option ℕ → List Text → List RpcEndpoint → List RpcEndpoint
firsts now block groups [] = []
firsts now block groups (e ∷ es) =
    let skip = firsts now block groups es in
    let next = firsts now block (e.provider_group ∷ groups) es in
    if text_in e.provider_group groups
    then skip
    else if not (can_serve now e block)
    then skip
    else e ∷ next

-- The first `count` of them, where there are so many.
abbrev pub enough : ℕ → List RpcEndpoint → Result PoolFault (List RpcEndpoint)
enough count found =
    if leb count (length found) then ok (take count found) else err no_healthy_endpoint

enough_short :
    (count : ℕ) (found : List RpcEndpoint)
    → length found < count
    → enough count found ≡ err no_healthy_endpoint
enough_short count found h = let e : leb count (length found) ≡ false = ground arith in rw e refl

take_front : (front back : List RpcEndpoint) → take (length front) (front ++ back) ≡ front
take_front [] back = refl
take_front (x ∷ front) back = ap (λ (xs : List RpcEndpoint). x ∷ xs) (take_front front back)

enough_full :
    (count : ℕ) (front back : List RpcEndpoint)
    → length front ≡ count
    → enough count (front ++ back) ≡ ok front
enough_full count front back h =
    let e : leb count (length (front ++ back)) ≡ true =
      (let l = length-append front back in ground arith) in
    let t : take count (front ++ back) ≡ front = rw (sym h) (take_front front back) in
    rw (e, t) refl

groups_loop-enough :
    (now : ℕ) (block : Option ℕ) (count : ℕ) (selected : List RpcEndpoint) (groups : List Text)
    (es : List RpcEndpoint)
    → length selected < count
    → groups_loop now block count selected groups es
      ≡ enough count (selected ++ firsts now block groups es)
unfolding groups_loop firsts
groups_loop-enough now block count selected groups [] short =
    sym (rw (append-nil selected) (enough_short count selected short))
groups_loop-enough now block count selected groups (e ∷ es) short =
    elim (Bool-cases (text_in e.provider_group groups)) [
      | inl t ↦ rw t (groups_loop-enough now block count selected groups es short)
      | inr t ↦ elim (Bool-cases (can_serve now e block)) [
        | inr s ↦ rw (t, s) (groups_loop-enough now block count selected groups es short)
        | inl s ↦ elim (Bool-cases (length (selected ++ e ∷ []) == count)) [
          | inl c ↦
              rw (t, s, c)
                (sym (
                  sym (
                    ap (enough count) (
                      append_assoc selected (e ∷ [])
                        (firsts now block (e.provider_group ∷ groups) es)))
                  ∙ enough_full count (selected ++ e ∷ []) _ (ground arith)))
          | inr c ↦
              rw (t, s, c)
                (groups_loop-enough now block count (selected ++ e ∷ []) (e.provider_group ∷ groups)
                    es (let l = length-append selected (e ∷ []) in ground arith)
                  ∙ ap (enough count) (
                      append_assoc selected (e ∷ [])
                        (firsts now block (e.provider_group ∷ groups) es)))
        ]
      ]
    ]

-- The endpoint can serve, and its group is none of `groups`.
abbrev pub Fresh : ℕ → Option ℕ → List Text → RpcEndpoint → Type 0
Fresh now block groups e =
    (can_serve now e block ≡ true) × (text_in e.provider_group groups ≡ false)

-- Every endpoint can serve, and none has the group of an earlier one or one of `groups`.
abbrev pub Distinct : ℕ → Option ℕ → List Text → List RpcEndpoint → Type 0
Distinct now block groups [] = Unit
Distinct now block groups (e ∷ es) =
    Fresh now block groups e × Distinct now block (e.provider_group ∷ groups) es

firsts-Distinct :
    (now : ℕ) (block : Option ℕ) (groups : List Text) (es : List RpcEndpoint)
    → Distinct now block groups (firsts now block groups es)
unfolding firsts
firsts-Distinct now block groups [] = tt
firsts-Distinct now block groups (e ∷ es) = elim (Bool-cases (text_in e.provider_group groups)) [
  | inl t ↦ rw t (firsts-Distinct now block groups es)
  | inr t ↦ elim (Bool-cases (can_serve now e block)) [
    | inr s ↦ rw (t, s) (firsts-Distinct now block groups es)
    | inl s ↦ rw (t, s) ((s, t), firsts-Distinct now block (e.provider_group ∷ groups) es)
  ]
]

Distinct-take :
    (now : ℕ) (block : Option ℕ) (groups : List Text) (count : ℕ) (es : List RpcEndpoint)
    → Distinct now block groups es
    → Distinct now block groups (take count es)
Distinct-take now block groups zero es d = tt
Distinct-take now block groups (suc count) [] d = tt
Distinct-take now block groups (suc count) (e ∷ es) (first, rest) =
    (first, Distinct-take now block (e.provider_group ∷ groups) count es rest)

-- `select_distinct_groups` for a positive count: among the endpoints that can serve, the first of
-- each provider group are candidates; it returns the first `count` of them, which are of distinct
-- groups, and raises `RpcNoHealthyEndpoint` exactly when there are fewer.
pub select_distinct_groups-firsts :
    (now count : ℕ) (block : Option ℕ) (pool : EndpointPool)
    → 0 < count
    → (select_distinct_groups now count block pool
        ≡ enough count (firsts now block [] pool.endpoints))
      × Distinct now block [] (firsts now block [] pool.endpoints)
      × Distinct now block [] (take count (firsts now block [] pool.endpoints))
unfolding select_distinct_groups
select_distinct_groups-firsts now count block pool some_count =
    let d = firsts-Distinct now block [] pool.endpoints in
    let e : ltb count 1 ≡ false = ground arith in
    (
      rw e (groups_loop-enough now block count [] [] pool.endpoints some_count),
      d,
      Distinct-take now block [] count _ d,
    )
