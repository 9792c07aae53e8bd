-- ===== src/Execution/Sandwich/Pinned.antt =====
-- A call at a block's number is read between two reads of the block's hash.
use mathlib.Core.Path.{subst}
use rpc_state_indexer.Prelude.{
  ℕ, ◌≡◌, refl, sym, ap, ◌∙◌, Bool, true, false, Result, ok, err, if◌then◌else◌,
}
use rpc_state_indexer.Prelude.Text.{Text, text, text_eq, text_eq_iff}
use rpc_state_indexer.Prelude.Exec.{Exec, pure, raise, lift, bind-returns}
use rpc_state_indexer.Json.{Json, bool, int, real, null, str, arr, obj, nil, cons}
use rpc_state_indexer.Hex.{hex}
use rpc_state_indexer.Domain.{BlockRef}
use rpc_state_indexer.Evm.Bytes.{Bytes}
use rpc_state_indexer.Rpc.Classification.{Failure}
use rpc_state_indexer.Rpc.Endpoint.{RpcEndpoint}
use rpc_state_indexer.Rpc.Client.{Net, Client, call_on_endpoint}
use rpc_state_indexer.Execution.Base.{ExecutionFault}
use rpc_state_indexer.Execution.LegacyBatch.{normalize_hash}
use rpc_state_indexer.Execution.Sandwich.{
  Caught, hash_or_mismatch, hash_of_block, text_result, from_rpc, read_block_hash,
  assert_anchor_hash, unless, call_params, pinned_call,
}

module _ {S : Type 0} (net : Net S) where
  abbrev pub block_params : ℕ → Json
  block_params number = arr (cons (str (hex number)) (cons (bool false) nil))

  -- Between the two states the endpoint has shown the block at the anchor's number, under the
  -- anchor's hash.
  abbrev pub ShowsAnchor : RpcEndpoint → BlockRef → Client S → Client S → Type 0
  ShowsAnchor e anchor s t =
      (v : Json) × (h : Text) × (call_on_endpoint net e (text "eth_getBlockByNumber")
          (block_params anchor.number) s
        ≡ (ok v, t))
      × (hash_of_block v ≡ ok h)
      × (normalize_hash (str anchor.block_hash) ≡ ok h)

  from_rpc_ok :
      (r : Result Failure Json × Client S) (v : Json) (t : Client S)
      → from_rpc net r ≡ (ok v, t)
      → r ≡ (ok v, t)
  from_rpc_ok (ok w, s) v t h = cc h
  from_rpc_ok (err f, s) v t h = absurd (cc h)

  hash_ok : (r : Result ExecutionFault Text) (h : Text) → hash_or_mismatch r ≡ ok h → r ≡ ok h
  hash_ok (ok k) h e = cc e
  hash_ok (err f) h e = absurd (cc e)

  lift_ok :
      {A : Type 0} (r : Result Caught A) (a : A) (s t : Client S)
      → lift r s ≡ (ok a, t)
      → (r ≡ ok a) × (s ≡ t)
  unfolding lift
  lift_ok {A = A} r a s t h = (
    ap (λ (p : Result Caught A × Client S). p.0) h,
    ap (λ (p : Result Caught A × Client S). p.1) h,
  )

  checked :
      (b : Bool) (caught : Caught) (u : Unit {0}) (s t : Client S)
      → (if b then pure tt else raise caught) s ≡ (ok u, t)
      → (b ≡ true) × (s ≡ t)
  unfolding pure raise
  checked true caught u s t h = (refl, ap (λ (p : Result Caught (Unit {0}) × Client S). p.1) h)
  checked false caught u s t h = absurd (cc h)

  skipped :
      (b : Bool) (check : Exec (Client S) Caught (Unit {0})) (u : Unit {0}) (s t : Client S)
      → b ≡ false
      → unless net b check s ≡ (ok u, t)
      → check s ≡ (ok u, t)
  skipped true check u s t e h = absurd (cc e)
  skipped false check u s t e h = h

  text_ok : (v : Json) (result : Text) → text_result v ≡ ok result → v ≡ str result
  text_ok (str w) result h = cc h
  text_ok null result h = absurd (cc h)
  text_ok (bool b) result h = absurd (cc h)
  text_ok (int n) result h = absurd (cc h)
  text_ok (real r) result h = absurd (cc h)
  text_ok (arr vs) result h = absurd (cc h)
  text_ok (obj fs) result h = absurd (cc h)

  in_state :
      (v : Json) (s t : Client S)
      → s ≡ t
      → ◌≡◌ {A = Result Failure Json × Client S} (ok v, s) (ok v, t)
  in_state v s t h = rw h refl

  -- The steps of the assertion, put together.
  shown :
      (e : RpcEndpoint) (anchor : BlockRef) (s s₁ s₂ s₃ t : Client S) (v : Json)
      (observed expected : Text)
      → from_rpc net
          (call_on_endpoint net e (text "eth_getBlockByNumber") (block_params anchor.number) s)
        ≡ (ok v, s₂)
      → (hash_of_block v ≡ ok observed) × (s₂ ≡ s₁)
      → (hash_or_mismatch (normalize_hash (str anchor.block_hash)) ≡ ok expected) × (s₁ ≡ s₃)
      → (text_eq observed expected ≡ true) × (s₃ ≡ t)
      → ShowsAnchor e anchor s t
  shown e anchor s s₁ s₂ s₃ t v observed expected called (hash, e₁) (normal, e₂) (same, e₃) =
      let equal : observed ≡ expected = (text_eq_iff observed expected).0 same in
      let end_state : s₂ ≡ t = e₁ ∙ e₂ ∙ e₃ in
      (
        v,
        observed,
        from_rpc_ok _ v s₂ called ∙ in_state v s₂ t end_state,
        hash,
        hash_ok _ expected normal ∙ ap ok (sym equal),
      )

  assert_anchor_hash-ShowsAnchor :
      (e : RpcEndpoint) (anchor : BlockRef) (s t : Client S) (u : Unit {0})
      → assert_anchor_hash net e anchor s ≡ (ok u, t)
      → ShowsAnchor e anchor s t
  unfolding assert_anchor_hash read_block_hash pure raise lift
  assert_anchor_hash-ShowsAnchor e anchor s t u h =
      let (observed, s₁, read, later) = bind-returns (read_block_hash net e anchor.number) _ h in
      let (v, s₂, called, hashed) =
        bind-returns
          (λ s'.
            from_rpc net (
              call_on_endpoint net e (text "eth_getBlockByNumber") (block_params anchor.number) s'))
          _ read in
      let (expected, s₃, normal, last) =
        bind-returns (lift (hash_or_mismatch (normalize_hash (str anchor.block_hash)))) _ later in
      shown e anchor s s₁ s₂ s₃ t v observed expected called (lift_ok _ _ _ _ hashed)
        (lift_ok _ _ _ _ normal) (checked _ _ _ _ _ last)

  as_text :
      (v : Json) (result : Text) (s : Client S)
      → v ≡ str result
      → ◌≡◌ {A = Result Failure Json × Client S} (ok v, s) (ok (str result), s)
  as_text v result s h = rw h refl

  -- A result of `_eth_call` at an endpoint that takes no block hashes was read between two reads
  -- that showed the anchor's hash at the anchor's number, with nothing else between them.
  pub pinned_call-ShowsAnchor :
      (address : Text) (calldata : Bytes) (reference : Json) (anchor : BlockRef) (e : RpcEndpoint)
      (s t : Client S) (result : Text)
      → e.supports_eip1898 ≡ false
      → pinned_call net address calldata reference anchor e s ≡ (ok result, t)
      → (s₁ : Client S) × (s₂ : Client S) × ShowsAnchor e anchor s s₁
        × (call_on_endpoint net e (text "eth_call") (call_params net address calldata reference) s₁
            ≡ (ok (str result), s₂))
        × ShowsAnchor e anchor s₂ t
  unfolding pinned_call lift
  pinned_call-ShowsAnchor address calldata reference anchor e s t result no_hash h =
      let (u₁, s₁, first, later) =
        bind-returns (unless net e.supports_eip1898 (assert_anchor_hash net e anchor)) _ h in
      let (v, s₂, called, last) =
        bind-returns
          (λ s'. from_rpc net (
            call_on_endpoint net e (text "eth_call") (call_params net address calldata reference)
              s'))
          _ later in
      let (u₂, s₃, second, read) =
        bind-returns (unless net e.supports_eip1898 (assert_anchor_hash net e anchor)) _ last in
      let (texted, e₃) = lift_ok _ _ _ _ read in
      (
        s₁,
        s₂,
        assert_anchor_hash-ShowsAnchor e anchor s s₁ u₁ (skipped _ _ _ _ _ no_hash first),
        from_rpc_ok _ v s₂ called ∙ as_text v result s₂ (text_ok v result texted),
        subst (λ (x : Client S). ShowsAnchor e anchor s₂ x) e₃
            (assert_anchor_hash-ShowsAnchor e anchor s₂ s₃ u₂ (skipped _ _ _ _ _ no_hash second)),
      )
