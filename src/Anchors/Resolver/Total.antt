-- ===== src/Anchors/Resolver/Total.antt =====
-- Over endpoints that serve one chain, a resolution returns, and its anchor is the last block
-- before the end of the day.
use native.Mathlib.Nat.{le_refl}
use rpc_state_indexer.Prelude.{
  ℕ, zero, suc, ◌+◌, ◌-◌, ◌/◌, ◌<◌, ◌≤◌, ◌≡◌, refl, sym, ap, ◌∙◌, false, not, ◌&&◌, some, List, [],
  ◌∷◌, ◌++◌, Result, ok, raise_if, Bool-cases, Option-cases, inl, inr, arith, ltb, ◌==◌,
}
use rpc_state_indexer.Prelude.Text.{Text, text}
use rpc_state_indexer.Prelude.Exec.{lift, Runs, Runs-pure, Runs-lift, Runs-bind}
use rpc_state_indexer.Json.{Json}
use rpc_state_indexer.Hex.{hex}
use rpc_state_indexer.Domain.{BlockRef, block_eq, block_eq_iff}
use rpc_state_indexer.Anchors.{
  changed_during_resolution, Date, utc_day_end_timestamp, ResolvedAnchor, parse_block,
}
use rpc_state_indexer.Anchors.Resolver.{
  CallFault, Finality, Session, cached, note, block_params, parse_tagged, answer, read_by_tag,
  read_by_number, read, reread, note_endpoints, bisect, confirm, locate, from_tip, safe_tip,
  resolve,
}
use rpc_state_indexer.Anchors.Resolver.Sound.{IsBoundary, validate_resolved_anchor_iff}

-- One chain up to its finalized block, and endpoints that answer every request for one of its
-- blocks, in whatever state they are.
pub record Serves {S : Type 0} (call : Json → S → Result CallFault (Json × Text) × S) (tag : Text)
    (chain : ℕ → BlockRef) (tip : ℕ) : Type 0 where
  pub numbered : (n : ℕ) → (chain n).number ≡ n
  pub linked : (n : ℕ) → (chain (n + 1)).parent_hash ≡ (chain n).block_hash
  pub by_number :
      (n : ℕ) (s : S)
      → n ≤ tip
      → (raw : Json) × (fp : Text) × (t : S) × (call (block_params (hex n)) s ≡ (ok (raw, fp), t))
        × (parse_block raw (some n) ≡ ok (chain n))
  pub by_tag :
      (s : S)
      → (raw : Json) × (fp : Text) × (t : S) × (call (block_params tag) s ≡ (ok (raw, fp), t))
        × (parse_tagged call tag raw ≡ ok (chain tip))

module _ {S : Type 0} (call : Json → S → Result CallFault (Json × Text) × S) (c : Finality)
    (chain : ℕ → BlockRef) (tip : ℕ) (serves : Serves call c.tag chain tip) where
  -- The cache holds blocks of the chain.
  record Consistent (σ : Session S) : Type 0 where
    blocks : (n : ℕ) (b : BlockRef) → cached n σ.cache ≡ some b → b ≡ chain n

  read_by_number-chain :
      (n : ℕ) (s : S)
      → n ≤ tip
      → (fp : Text) × (t : S) × (read_by_number call n s ≡ (ok (chain n, fp), t))
  unfolding read_by_number
  read_by_number-chain n s le =
      let (raw, fp, t, e, parsed) = serves.by_number n s le in (fp, t, rw e (rw (parsed, answer)))

  read-chain : (n : ℕ) → n ≤ tip → Runs Consistent (λ b. b ≡ chain n) (read call n)
  unfolding read
  read-chain n le = record {
    at = λ σ good. elim (Option-cases (cached n σ.cache)) [
      | inr (b, hit) ↦ (b, σ, rw (hit, read), good.blocks n b hit, good)
      | inl miss ↦
          let (fp, t, e) = read_by_number-chain n σ.rpc le in
          (
            chain n,
            record {
              cache = (n, chain n) ∷ σ.cache;
              fingerprints = note σ.fingerprints fp;
              rpc = t;
            },
            rw (miss, e, read),
            refl,
            record { blocks = λ m b. unfold cached in ground (arith, good.blocks m b) },
          )
    ];
  }

  reread-chain :
      (n : ℕ)
      → n ≤ tip
      → Runs Consistent (λ (found : BlockRef × Text). found.0 ≡ chain n) (reread call n)
  unfolding reread
  reread-chain n le = record {
    at = λ σ good.
        let (fp, t, e) = read_by_number-chain n σ.rpc le in
        (
          (chain n, fp),
          record σ { rpc = t },
          rw (e, reread),
          refl,
          record { blocks = good.blocks },
        );
  }

  note_endpoints-Runs :
      (fs : List Text) → Runs Consistent (λ (_ : List Text). Unit {0}) (note_endpoints call fs)
  unfolding note_endpoints
  note_endpoints-Runs [] = record { at = λ σ good. (σ.fingerprints, σ, refl, tt, good) }
  note_endpoints-Runs (f ∷ fs) = record {
    at = λ σ good.
        (note_endpoints-Runs fs).at (record σ { fingerprints = note σ.fingerprints f })
          (record { blocks = good.blocks });
  }

  -- Two neighbours on either side of the boundary.
  abbrev Brackets : ℕ → ℕ × ℕ → Type 0
  Brackets boundary (low, high) =
      (high ≡ low + 1)
      × ((chain low).timestamp < boundary)
      × (boundary ≤ (chain high).timestamp)
      × (high ≤ tip)

  bisect-Brackets :
      (fuel boundary low high : ℕ)
      → high - low < fuel
      → low < high
      → high ≤ tip
      → (chain low).timestamp < boundary
      → boundary ≤ (chain high).timestamp
      → Runs Consistent (Brackets boundary) (bisect call fuel boundary low high)
  unfolding bisect
  bisect-Brackets zero boundary low high enough lt le below above = absurd (omega arith)
  bisect-Brackets (suc fuel) boundary low high enough lt le below above =
      let middle = low + (high - low) / 2 in
      elim (Bool-cases (ltb 1 (high - low))) [
        | inr close ↦ rw (close, bisect) (Runs-pure (low, high) (ground arith, below, above, le))
        | inl apart ↦
            rw (apart, bisect)
              (Runs-bind (read call middle) _ (read-chain middle (ground arith)) λ b e.
                elim (Bool-cases (ltb b.timestamp boundary)) [
                  | inl early ↦ rw early (
                      bisect-Brackets fuel boundary middle high (ground arith) (ground arith) le
                        (ground arith) above)
                  | inr late ↦ rw late (
                      bisect-Brackets fuel boundary low middle (ground arith) (ground arith)
                        (ground arith) below (ground arith))
                ])
      ]

  -- The last block before the end of the day, with the block after it.
  record EndsDay (day : Date) (r : ResolvedAnchor) : Type 0 where
    is_anchor : r.anchor ≡ chain r.anchor.number
    is_next : r.next_block ≡ chain (r.anchor.number + 1)
    proved : IsBoundary r
    for_day : r.snapshot_date ≡ day

  abbrev resolved : Date → Text → List Text → BlockRef → BlockRef → ResolvedAnchor
  resolved day source fps a b = record {
    snapshot_date = day;
    anchor = a;
    next_block = b;
    safe_tip = chain tip;
    finality_source = source;
    endpoint_fingerprints = fps;
  }

  resolved-EndsDay :
      (day : Date) (source : Text) (fps : List Text) (bounds : ℕ × ℕ)
      → Brackets (utc_day_end_timestamp day) bounds
      → EndsDay day (resolved day source fps (chain bounds.0) (chain bounds.1))
  resolved-EndsDay day source fps (low, high) (next, below, above, le) =
      let p : (chain low).number ≡ low = serves.numbered low in
      let q : (chain high).number ≡ high = serves.numbered high in
      record {
        is_anchor = ap chain (sym p);
        is_next = ap chain (omega arith);
        proved = record {
          before = below;
          after = above;
          adjacent = omega arith;
          linked = rw next (serves.linked low);
          final = omega (arith, serves.numbered tip);
        };
        for_day = refl;
      }

  tip_positive :
      (t boundary : ℕ) → (chain 0).timestamp < boundary → boundary ≤ (chain t).timestamp → 0 < t
  tip_positive zero boundary below above = absurd (omega arith)
  tip_positive (suc t) boundary below above = omega arith

  -- The second reads find the same blocks.
  same_blocks :
      (a a' b b' : BlockRef)
      → a' ≡ a
      → b' ≡ b
      → raise_if (not (block_eq a' a && block_eq b' b)) changed_during_resolution ≡ ok tt
  same_blocks a a' b b' p q = rw ((block_eq_iff a' a).1 p, (block_eq_iff b' b).1 q)

  confirm-EndsDay :
      (day : Date) (source : Text) (bounds : ℕ × ℕ) (anchor next : BlockRef)
      → Brackets (utc_day_end_timestamp day) bounds
      → anchor ≡ chain bounds.0
      → next ≡ chain bounds.1
      → Runs Consistent (EndsDay day) (confirm call day (chain tip) source anchor next)
  unfolding confirm
  confirm-EndsDay day source bounds anchor next brackets p q =
      let a_number : anchor.number ≡ bounds.0 = ap (λ b. b.number) p ∙ serves.numbered bounds.0 in
      let b_number : next.number ≡ bounds.1 = ap (λ b. b.number) q ∙ serves.numbered bounds.1 in
      Runs-bind (reread call anchor.number) _ (reread-chain anchor.number (omega arith)) λ again e.
        Runs-bind (reread call next.number) _ (reread-chain next.number (omega arith)) λ again' e'.
          let f : again.0 ≡ chain bounds.0 = e ∙ ap chain a_number in
          let g : again'.0 ≡ chain bounds.1 = e' ∙ ap chain b_number in
          Runs-bind {P = λ _. Unit {0}} (lift _) _
            (Runs-lift _ tt (same_blocks anchor again.0 next again'.0 (f ∙ sym p) (g ∙ sym q)) tt)
            λ _ _. Runs-bind (note_endpoints call _) _ (note_endpoints-Runs _) λ fps _.
              let ends : EndsDay day (resolved day source fps again.0 again'.0) =
                rw (f, g) (resolved-EndsDay day source fps bounds brackets) in
              Runs-bind {P = λ _. Unit {0}} (lift _) _
                (Runs-lift _ tt ((validate_resolved_anchor_iff _).1 ends.proved) tt)
                λ _ _. Runs-pure _ ends

  locate-EndsDay :
      (day : Date) (source : Text)
      → (chain 0).timestamp < utc_day_end_timestamp day
      → utc_day_end_timestamp day ≤ (chain tip).timestamp
      → Runs Consistent (EndsDay day) (locate call day (chain tip) source)
  unfolding locate
  locate-EndsDay day source below above =
      let boundary = utc_day_end_timestamp day in
      Runs-bind (read call 0) _ (read-chain 0 (omega arith)) λ genesis is_genesis.
        Runs-bind {P = λ _. Unit {0}} (lift _) _ (Runs-lift _ tt (ground arith) tt) λ _ _.
          Runs-bind (bisect call _ boundary 0 _) _
            (rw (serves.numbered tip) (
              bisect-Brackets (suc tip) boundary 0 tip (omega arith)
                (tip_positive tip boundary below above) (le_refl tip) below above))
            λ bounds brackets.
              Runs-bind (read call bounds.0) _ (read-chain bounds.0 (omega arith)) λ anchor p.
                Runs-bind (read call bounds.1) _ (read-chain bounds.1 (omega arith))
                  λ next q. confirm-EndsDay day source bounds anchor next brackets p q

  start-Consistent :
      (fps : List Text) (s : S)
      → Consistent
          (record { cache = ((chain tip).number, chain tip) ∷ []; fingerprints = fps; rpc = s })
  unfolding cached
  start-Consistent fps s = record {
    blocks = λ n b h. elim (Bool-cases ((chain tip).number == n)) [
      | inl e ↦
          let p : tip ≡ n = ground (arith, serves.numbered tip) in
          let q : chain tip ≡ b = ground arith in sym q ∙ ap chain p
      | inr ne ↦ absurd (cc (rw ne at h))
    ];
  }

  from_tip-EndsDay :
      (day : Date) (source : Text) (fps : List Text) (s : S)
      → (chain 0).timestamp < utc_day_end_timestamp day
      → utc_day_end_timestamp day ≤ (chain tip).timestamp
      → (r : ResolvedAnchor) × (t : S) × (from_tip call day (ok (chain tip, source, fps), s)
          ≡ (ok r, t))
        × EndsDay day r
  from_tip-EndsDay day source fps s below above =
      let late : ltb (chain tip).timestamp (utc_day_end_timestamp day) ≡ false = ground arith in
      let (r, σ, e, ends, good) =
        (locate-EndsDay day source below above).at _ (start-Consistent fps s) in
      (r, σ.rpc, rw (late, e), ends)

  module _ (monotone : (m n : ℕ) → m ≤ n → (chain m).timestamp ≤ (chain n).timestamp) where
    -- Over endpoints that serve one chain, with timestamps that do not fall, whose finalized block
    -- is not before the end of the day and whose first block is: the resolution returns, for any
    -- state of the endpoints, and its anchor is the block of the chain such that it and all blocks
    -- up to it are before the end of the day, and all later blocks are not.
    pub resolve_total :
        (day : Date) (s : S)
        → (chain 0).timestamp < utc_day_end_timestamp day
        → utc_day_end_timestamp day ≤ (chain tip).timestamp
        → (r : ResolvedAnchor) × (t : S) × (resolve call c day s ≡ (ok r, t))
          × (r.anchor ≡ chain r.anchor.number)
          × ((n : ℕ) → n ≤ r.anchor.number → (chain n).timestamp < utc_day_end_timestamp day)
          × ((n : ℕ) → r.anchor.number < n → utc_day_end_timestamp day ≤ (chain n).timestamp)
    unfolding resolve safe_tip read_by_tag
    resolve_total day s below above =
        let (raw, fp, s', e, parsed) = serves.by_tag s in
        let (r, t, run, ends) =
          from_tip-EndsDay day (text "tag:" ++ c.tag) (fp ∷ []) s' below above in
        let proof = ends.proved in
        (
          r,
          t,
          rw (e, answer, parsed) run,
          ends.is_anchor,
          (λ n le.
              let m = monotone n r.anchor.number le in
              let p = ap (λ b. b.timestamp) ends.is_anchor in
              let q = ap utc_day_end_timestamp ends.for_day in omega (arith, proof.before)),
          (λ n lt.
              let m = monotone (r.anchor.number + 1) n (omega arith) in
              let p = ap (λ b. b.timestamp) ends.is_next in
              let q = ap utc_day_end_timestamp ends.for_day in omega (arith, proof.after)),
        )
