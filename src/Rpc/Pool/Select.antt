-- ===== src/Rpc/Pool/Select.antt =====
-- `select` takes the first endpoint from the cursor on, around the ring, that passes its tests.
use mathlib.Core.Path.{subst}
use native.Mathlib.Nat.{mod-lt, mod-eq_of_lt, add-mod_right}
use rpc_state_indexer.Prelude.{
  ℕ, zero, suc, ◌+◌, ◌-◌, ◌%◌, ◌<◌, ◌≤◌, ◌≡◌, refl, sym, ◌∙◌, Bool, true, false, inl, inr, Option,
  none, some, List, [], ◌∷◌, Result, ok, err, length, get_elem?, Bool-cases, Option-cases, ltb,
  arith,
}
use rpc_state_indexer.Prelude.Text.{Text}
use rpc_state_indexer.Rpc.Endpoint.{RpcEndpoint}
use rpc_state_indexer.Rpc.Pool.{
  EndpointPool, PoolFault, no_healthy_endpoint, selectable, select_loop, select, advance,
}

-- The endpoint at the index fails the test, where there is one.
abbrev pub Passed : (RpcEndpoint → Bool) → List RpcEndpoint → ℕ → Type 0
Passed test es index = (e : RpcEndpoint) → get_elem? es index ≡ some e → test e ≡ false

-- What the loop finds over the offsets from `offset` below `offset + left`.
abbrev Found :
    (RpcEndpoint → Bool) → List RpcEndpoint → ℕ → ℕ → ℕ → Option (ℕ × RpcEndpoint) → Type 0
Found test es cursor left offset none =
    (o : ℕ) → offset ≤ o → o < offset + left → Passed test es ((cursor + o) % length es)
Found test es cursor left offset (some (index, e)) =
    (o : ℕ) × (o < offset + left)
    × (index ≡ (cursor + o) % length es)
    × (get_elem? es index ≡ some e)
    × (test e ≡ true)
    × ((before : ℕ) → offset ≤ before → before < o → Passed test es ((cursor + before) % length es))

Found-suc :
    (test : RpcEndpoint → Bool) (es : List RpcEndpoint) (cursor left offset : ℕ)
    (o : Option (ℕ × RpcEndpoint))
    → Passed test es ((cursor + offset) % length es)
    → Found test es cursor left (offset + 1) o
    → Found test es cursor (suc left) offset o
Found-suc test es cursor left offset none first rest = λ o low high.
    elim (Bool-cases (ltb offset o)) [
      | inl e ↦ rest o (ground arith) (omega arith)
      | inr e ↦ subst (λ (k : ℕ). Passed test es ((cursor + k) % length es)) (ground arith) first
    ]
Found-suc test es cursor left offset (some (index, e)) first (o, below, at, got, passed, earlier) =
    (
      o,
      omega arith,
      at,
      got,
      passed,
      λ before low high. elim (Bool-cases (ltb offset before)) [
        | inl t ↦ earlier before (ground arith) high
        | inr t ↦ subst (λ (k : ℕ). Passed test es ((cursor + k) % length es)) (ground arith) first
      ],
    )

select_loop-Found :
    (test : RpcEndpoint → Bool) (es : List RpcEndpoint) (cursor left offset : ℕ)
    → Found test es cursor left offset (select_loop test es cursor left offset)
unfolding select_loop
select_loop-Found test es cursor zero offset = λ o low high. absurd (omega arith)
select_loop-Found test es cursor (suc left) offset =
    let index = (cursor + offset) % length es in
    let rest = select_loop-Found test es cursor left (offset + 1) in
    let whole = select_loop test es cursor (suc left) offset in
    let later = select_loop test es cursor left (offset + 1) in
    let go : (o : Option (ℕ × RpcEndpoint))
        → whole ≡ o
        → Found test es cursor (suc left) offset o
        → Found test es cursor (suc left) offset whole =
      λ o e f. subst (Found test es cursor (suc left) offset) (sym e) f in
    elim (Option-cases (get_elem? es index)) [
      | inl gone ↦
          go later (rw (select_loop, gone) refl)
            (Found-suc test es cursor left offset later (λ e got. absurd (cc (gone, got))) rest)
      | inr (e, got) ↦ elim (Bool-cases (test e)) [
        | inl passed ↦
            go (some (index, e)) (rw (select_loop, got, passed) refl)
              (offset, omega arith, refl, got, passed, λ before low high. absurd (omega arith))
        | inr failed ↦ go later (rw (select_loop, got, failed) refl) (
            Found-suc test es cursor left offset later
              (λ e' got'.
                let same : e ≡ e' = cc (got, got') in
                subst (λ (x : RpcEndpoint). test x ≡ false) same failed)
              rest)
      ]
    ]

-- The offset at which the ring reaches an index.
around :
    (cursor n index : ℕ) → cursor < n → index < n → (o : ℕ) × (o < n) × ((cursor + o) % n ≡ index)
around cursor n index c i = elim (Bool-cases (ltb index cursor)) [
  | inl e ↦ (
    index + n - cursor,
    ground arith,
    let s : cursor + (index + n - cursor) ≡ index + n = ground arith in
        rw s (add-mod_right index n ∙ mod-eq_of_lt i),
  )
  | inr e ↦ (
    index - cursor,
    ground arith,
    let s : cursor + (index - cursor) ≡ index = ground arith in rw s (mod-eq_of_lt i),
  )
]

below : (es : List RpcEndpoint) (i : ℕ) (e : RpcEndpoint) → get_elem? es i ≡ some e → i < length es
below [] i e got = absurd (cc got)
below (x ∷ es) zero e got = omega arith
below (x ∷ es) (suc i) e got = let b = below es i e got in omega arith

-- What one call of `select` does, told by its result.
abbrev pub Selection :
    (RpcEndpoint → Bool) → EndpointPool → Result PoolFault RpcEndpoint × EndpointPool → Type 0
Selection test pool (err fault, left) =
    (fault ≡ no_healthy_endpoint) × (left ≡ pool) × ((i : ℕ) → Passed test pool.endpoints i)
Selection test pool (ok e, left) =
    let n = length pool.endpoints in
    (o : ℕ) × (o < n)
    × (get_elem? pool.endpoints ((pool.cursor + o) % n) ≡ some e)
    × (test e ≡ true)
    × ((before : ℕ) → before < o → Passed test pool.endpoints ((pool.cursor + before) % n))
    × (left.endpoints ≡ pool.endpoints)
    × (left.cursor ≡ ((pool.cursor + o) % n + 1) % n)
    × (left.cursor < n)

Found-Selection :
    (test : RpcEndpoint → Bool) (pool : EndpointPool) (o : Option (ℕ × RpcEndpoint))
    → pool.cursor < length pool.endpoints
    → Found test pool.endpoints pool.cursor (length pool.endpoints) 0 o
    → Selection test pool (advance pool o)
Found-Selection test pool none c found = (
  refl,
  refl,
  λ i e got.
      let (o, b, at) =
        around pool.cursor (length pool.endpoints) i c (below pool.endpoints i e got) in
      found o (omega arith) (omega arith) e (rw at got),
)
Found-Selection test pool (some (index, e)) c (o, b, at, got, passed, earlier) = (
  o,
  omega arith,
  rw (sym at) got,
  passed,
  (λ before lower. earlier before (omega arith) lower),
  refl,
  rw at refl,
  mod-lt _ (omega arith),
)

-- `select` from a pool whose cursor is in range: the endpoint it returns is the first from the
-- cursor on, around the ring, that is not excluded, supports what is required and can serve the
-- block; the cursor then stands behind it, in range again. It raises `RpcNoHealthyEndpoint` only
-- when no endpoint of the pool passes these tests, and leaves the pool as it was.
pub select-Selection :
    (now : ℕ) (block : Option ℕ) (require : Bool) (exclude : List Text) (pool : EndpointPool)
    → pool.cursor < length pool.endpoints
    → Selection (selectable now block require exclude) pool (select now block require exclude pool)
unfolding select
select-Selection now block require exclude pool c =
    Found-Selection _ pool _ c
      (select_loop-Found _ pool.endpoints pool.cursor (length pool.endpoints) 0)
