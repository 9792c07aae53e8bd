-- ===== src/Anchors/Resolver/Sound.antt =====
-- What a resolution that returns has proved, whatever the endpoints answered.
use mathlib.Core.HLevel.{Unit-prop}
use rpc_state_indexer.Prelude.{
  ◌+◌, ◌<◌, ◌≤◌, ◌≡◌, refl, ap, ◌∙◌, [], ◌∷◌, Result, ok, err, Bool-cases, inl, inr, arith, ltb,
}
use rpc_state_indexer.Prelude.Text.{Text, text_eq_iff}
use rpc_state_indexer.Prelude.Exec.{Ensures, Ensures-pure, Ensures-bind, Ensures-bind-lift}
use rpc_state_indexer.Json.{Json}
use rpc_state_indexer.Domain.{BlockRef}
use rpc_state_indexer.Anchors.{
  AnchorError, Date, utc_day_end_timestamp, ResolvedAnchor, validate_resolved_anchor,
}
use rpc_state_indexer.Anchors.Resolver.{
  CallFault, Finality, Session, confirm, locate, from_tip, safe_tip, resolve, SafeTip,
}

-- The complete boundary proof.
pub record IsBoundary (r : ResolvedAnchor) : Type 0 where
  pub before : r.anchor.timestamp < utc_day_end_timestamp r.snapshot_date
  pub after : utc_day_end_timestamp r.snapshot_date ≤ r.next_block.timestamp
  pub adjacent : r.next_block.number ≡ r.anchor.number + 1
  pub linked : r.next_block.parent_hash ≡ r.anchor.block_hash
  pub final : r.next_block.number ≤ r.safe_tip.number

-- `validate_resolved_anchor` returns exactly on the complete boundary proofs.
pub validate_resolved_anchor_iff :
    (r : ResolvedAnchor)
    → (validate_resolved_anchor r ≡ ok tt → IsBoundary r)
      × (IsBoundary r → validate_resolved_anchor r ≡ ok tt)
unfolding validate_resolved_anchor
validate_resolved_anchor_iff r = (
  (λ h. ground (arith, text_eq_iff r.next_block.parent_hash r.anchor.block_hash)),
  (λ h. ground (arith, text_eq_iff r.next_block.parent_hash r.anchor.block_hash)),
)

module _ {S : Type 0} (call : Json → S → Result CallFault (Json × Text) × S) where
  abbrev Proved : Date → BlockRef → ResolvedAnchor → Type 0
  Proved day tip r = IsBoundary r × (r.snapshot_date ≡ day) × (r.safe_tip ≡ tip)

  locate-IsBoundary :
      (day : Date) (tip : BlockRef) (source : Text)
      → Ensures (Proved day tip) (locate call day tip source)
  unfolding locate confirm
  locate-IsBoundary day tip source = Ensures-bind _ _ λ genesis. Ensures-bind-lift _ _ λ _ _.
      Ensures-bind _ _ λ bounds. Ensures-bind _ _ λ anchor. Ensures-bind _ _ λ next_block.
        Ensures-bind _ _ λ again. Ensures-bind _ _ λ again'. Ensures-bind-lift _ _ λ _ _.
          Ensures-bind _ _ λ fingerprints. Ensures-bind-lift _ _ λ u valid.
            Ensures-pure _
              ((validate_resolved_anchor_iff _).0 (valid ∙ ap ok (Unit-prop u tt)), refl, refl)

  from_tip-IsBoundary :
      (day : Date) (tip : Result AnchorError (SafeTip call) × S) (t : S) (r : ResolvedAnchor)
      → from_tip call day tip ≡ (ok r, t)
      → IsBoundary r × (r.snapshot_date ≡ day) × (utc_day_end_timestamp day ≤ r.safe_tip.timestamp)
  from_tip-IsBoundary day (err e, s) t r h = absurd (cc h)
  from_tip-IsBoundary day (ok (tip, source, endpoints), s) t r h =
      elim (Bool-cases (ltb tip.timestamp (utc_day_end_timestamp day))) [
        | inl early ↦ absurd (cc (rw early at h))
        | inr late ↦
            let σ : Session S = record {
              cache = (tip.number, tip) ∷ [];
              fingerprints = endpoints;
              rpc = s;
            } in
            let (proof, same_day, same_tip) =
              (locate-IsBoundary day tip source).at σ (locate call day tip source σ).1 r
                (ground (arith, rw late at h)) in
            (proof, same_day, rw same_tip (ground arith))
      ]

  -- Whatever the endpoints answer, a resolution that returns is for the requested day, and has the
  -- complete boundary proof: an anchor before the end of the day, the next block at or after it,
  -- adjacent, linked by the hash, not above the safe tip, and a safe tip at or after the boundary.
  pub resolve-IsBoundary :
      (c : Finality) (day : Date) (s t : S) (r : ResolvedAnchor)
      → resolve call c day s ≡ (ok r, t)
      → IsBoundary r × (r.snapshot_date ≡ day) × (utc_day_end_timestamp day ≤ r.safe_tip.timestamp)
  unfolding resolve
  resolve-IsBoundary c day s t r h = from_tip-IsBoundary day (safe_tip call c s) t r h
