-- ===== src/Execution/Multicall/Sentinel.antt =====
-- What a verified sentinel says: the response was read at the anchor block.
use rpc_state_indexer.Prelude.{
  ℕ, ◌≡◌, refl, Bool, true, false, not, ◌&&◌, inl, inr, List, [], ◌∷◌, ◌++◌, ok, >>=-returns,
  raise_if, length, Bool-cases, ◌==◌, arith,
}
use rpc_state_indexer.Prelude.Text.{text, text_eq, text_eq_iff}
use rpc_state_indexer.Json.{str}
use rpc_state_indexer.Domain.{BlockRef, is_ok}
use rpc_state_indexer.Evm.Bytes.{Bytes, from_bytes}
use rpc_state_indexer.Evm.Decoding.{decode_uint256}
use rpc_state_indexer.Execution.Base.{ExecutionFault, sentinel_mismatch}
use rpc_state_indexer.Execution.LegacyBatch.{normalize_hash, bytes_hex}
use rpc_state_indexer.Execution.Multicall.{observes, verify_sentinels}

raise_if_ok :
    (b : Bool) (fault : ExecutionFault) {u : Unit {0}} → raise_if (not b) fault ≡ ok u → b ≡ true
raise_if_ok true fault h = refl
raise_if_ok false fault h = absurd (cc h)

observes_word :
    (raw : Bytes) (n : ℕ)
    → observes (decode_uint256 true raw) n ≡ true
    → (length raw ≡ 32) × (from_bytes raw ≡ n)
unfolding decode_uint256 is_ok
observes_word raw n h = elim (Bool-cases (length raw == 0)) [
  | inl e ↦ absurd (cc (rw (decode_uint256, e) at h))
  | inr e ↦ elim (Bool-cases (length raw == 32)) [
    | inr f ↦ absurd (cc (rw (decode_uint256, e, f) at h))
    | inl f ↦
        let v : (from_bytes raw == n) ≡ true = rw (decode_uint256, e, f) at h in
        (ground arith, ground arith)
  ]
]

-- The triple is three successes: the words of the anchor's number and timestamp and the 32 bytes
-- of the hash of its parent.
abbrev pub AtAnchor : BlockRef → List (Bool × Bytes) → Type 0
AtAnchor anchor results =
    (block : Bytes) × (timestamp : Bytes) × (parent : Bytes) × (results
      ≡ (true, block) ∷ (true, timestamp) ∷ (true, parent) ∷ [])
    × (length block ≡ 32)
    × (from_bytes block ≡ anchor.number)
    × (length timestamp ≡ 32)
    × (from_bytes timestamp ≡ anchor.timestamp)
    × (length parent ≡ 32)
    × (normalize_hash (str anchor.parent_hash) ≡ ok (text "0x" ++ bytes_hex parent))

triple :
    (a b c : Bool) (x y z : Bytes)
    → (a && b && c) ≡ true
    → ◌≡◌ {A = List (Bool × Bytes)}
        ((a, x) ∷ (b, y) ∷ (c, z) ∷ [])
        ((true, x) ∷ (true, y) ∷ (true, z) ∷ [])
triple true true true x y z h = refl
triple true true false x y z h = absurd (cc h)
triple true false c x y z h = absurd (cc h)
triple false b c x y z h = absurd (cc h)

-- `_verify_sentinels` accepts a triple only when it was read at the anchor block.
pub verify_sentinels-AtAnchor :
    (results : List (Bool × Bytes)) (anchor : BlockRef)
    → verify_sentinels results anchor ≡ ok tt
    → AtAnchor anchor results
unfolding verify_sentinels
verify_sentinels-AtAnchor [] anchor h = absurd (cc h)
verify_sentinels-AtAnchor (a ∷ []) anchor h = absurd (cc h)
verify_sentinels-AtAnchor (a ∷ b ∷ []) anchor h = absurd (cc h)
verify_sentinels-AtAnchor (a ∷ b ∷ c ∷ d ∷ rest) anchor h = absurd (cc h)
verify_sentinels-AtAnchor ((s₀, block) ∷ (s₁, timestamp) ∷ (s₂, parent) ∷ []) anchor h =
    let (u₀, h₀, k₀) = >>=-returns (raise_if (not (s₀ && s₁ && s₂)) sentinel_mismatch) _ h in
    let (u₁, h₁, k₁) =
      >>=-returns
        (raise_if (not (observes (decode_uint256 true block) anchor.number)) sentinel_mismatch) _
        k₀ in
    let (u₂, h₂, k₂) =
      >>=-returns
        (raise_if (not (observes (decode_uint256 true timestamp) anchor.timestamp))
          sentinel_mismatch)
        _ k₁ in
    let (u₃, h₃, k₃) = >>=-returns (raise_if (not (length parent == 32)) sentinel_mismatch) _ k₂ in
    let (expected, h₄, k₄) = >>=-returns (normalize_hash (str anchor.parent_hash)) _ k₃ in
    let (u₅, h₅, k₅) =
      >>=-returns
        (raise_if (not (text_eq (text "0x" ++ bytes_hex parent) expected)) sentinel_mismatch) _
        k₄ in
    let (block_length, block_value) = observes_word block anchor.number (raise_if_ok _ _ h₁) in
    let (time_length, time_value) = observes_word timestamp anchor.timestamp (raise_if_ok _ _ h₂) in
    let all_three = raise_if_ok _ _ h₀ in
    let parent_length : length parent ≡ 32 = (let e = raise_if_ok _ _ h₃ in ground arith) in
    let hash = (text_eq_iff (text "0x" ++ bytes_hex parent) expected).0 (raise_if_ok _ _ h₅) in
    (
      block,
      timestamp,
      parent,
      triple s₀ s₁ s₂ block timestamp parent all_three,
      block_length,
      block_value,
      time_length,
      time_value,
      parent_length,
      rw hash h₄,
    )
