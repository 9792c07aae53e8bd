-- ===== src/Anchors/Resolver.antt =====
-- `AnchorResolver` of core/anchors.py. `rpc.call` is the parameter `call`: the parameters of
-- `eth_getBlockByNumber` in, a JSON value with the endpoint's fingerprint out, or an exception.
pub mod Sound
pub mod Total
use rpc_state_indexer.Prelude.{
  ℕ, zero, suc, ◌+◌, ◌-◌, ◌/◌, Bool, true, false, not, ◌&&◌, Option, none, some, List, [], ◌∷◌,
  ◌++◌, Result, ok, err, raise_if, ltb, leb, ◌==◌, if◌then◌else◌,
}
use rpc_state_indexer.Prelude.Text.{Text, text, text_eq, text_in}
use rpc_state_indexer.Prelude.Exec.{Exec, pure, raise, lift, ◌>>=◌, ◌>>◌}
use rpc_state_indexer.Json.{Json, null, bool, str, arr, nil, cons}
use rpc_state_indexer.Prelude.Int.{pos}
use rpc_state_indexer.Rpc.Classification.{show_int}
use rpc_state_indexer.Hex.{hex}
use rpc_state_indexer.Domain.{BlockRef, block_eq}
use rpc_state_indexer.Anchors.{
  AnchorError, invalid, before_genesis, below_depth, tip_before_boundary, changed_during_resolution,
  rpc_response, rpc_other, tag_unavailable, out_of_fuel, Date, utc_day_end_timestamp,
  ResolvedAnchor, parse_block, validate_resolved_anchor,
}

-- `RpcResponseError`, or any other exception of `rpc.call`.
pub data CallFault : Type 0 where
  response_error other_error : CallFault

-- The constructor's parameters, which it checks to be positive and not empty.
pub record Finality : Type 0 where
  pub tag : Text
  pub confirmation_depth : ℕ

pub data SettingFault : Type 0 where
  empty_tag no_depth : SettingFault

unfoldable pub make_finality : Text → ℕ → Result SettingFault Finality
make_finality [] depth = err empty_tag
make_finality (c ∷ tag) depth =
    if ltb depth 1 then err no_depth else ok (record { tag = c ∷ tag; confirmation_depth = depth })

abbrev pub latest : Text
latest = text "latest"

abbrev pub block_params : Text → Json
block_params block = arr (cons (str block) (cons (bool false) nil))

-- The local variables of `resolve` that `read` writes, beside the state of `rpc`.
pub record Session (S : Type 0) : Type 0 where
  pub cache : List (ℕ × BlockRef)
  pub fingerprints : List Text
  pub rpc : S

unfoldable pub cached : ℕ → List (ℕ × BlockRef) → Option BlockRef
cached number [] = none
cached number ((n, b) ∷ rest) = if n == number then some b else cached number rest

-- `if fingerprint not in fingerprints: fingerprints.append(fingerprint)`.
abbrev pub note : List Text → Text → List Text
note fingerprints fingerprint =
    if text_in fingerprint fingerprints then fingerprints else fingerprints ++ fingerprint ∷ []

abbrev pub raised : CallFault → AnchorError
raised response_error = rpc_response
raised other_error = rpc_other

-- `tuple(dict.fromkeys((a, b)))`.
abbrev pub distinct_pair : Text → Text → List Text
distinct_pair a b = if text_eq a b then a ∷ [] else a ∷ b ∷ []

module _ {S : Type 0} (call : Json → S → Result CallFault (Json × Text) × S) where
  abbrev pub answer :
      (Json → Result AnchorError BlockRef)
      → Result CallFault (Json × Text) × S
      → Result AnchorError (BlockRef × Text) × S
  answer parse (err fault, s) = (err (raised fault), s)
  answer parse (ok (raw, fingerprint), s) = elim (parse raw) [
    | ok b ↦ (ok (b, fingerprint), s)
    | err e ↦ (err e, s)
  ]

  -- `None` for a tag other than `latest` means that the endpoint does not know the tag.
  abbrev pub parse_tagged : Text → Json → Result AnchorError BlockRef
  parse_tagged tag null = if text_eq tag latest then parse_block null none else err tag_unavailable
  parse_tagged tag raw = parse_block raw none

  unfoldable pub read_by_tag : Text → Exec S AnchorError (BlockRef × Text)
  read_by_tag tag s = answer (parse_tagged tag) (call (block_params tag) s)

  unfoldable pub read_by_number : ℕ → Exec S AnchorError (BlockRef × Text)
  read_by_number number s =
      answer (λ raw. parse_block raw (some number)) (call (block_params (hex number)) s)

  -- The block, the finality source and the endpoints that it rests on.
  abbrev pub SafeTip : Type 0
  SafeTip = BlockRef × Text × List Text

  -- The handler of `except (RpcResponseError, _FinalityTagUnavailable)`.
  unfoldable pub confirmed_tip : Finality → Exec S AnchorError SafeTip
  confirmed_tip c = do
    (tip, fingerprint) ← read_by_tag latest
    lift (raise_if (ltb tip.number c.confirmation_depth) below_depth)
    (safe, safe_fingerprint) ← read_by_number (tip.number - c.confirmation_depth)
    pure (
      safe,
      text "confirmations:" ++ show_int (pos c.confirmation_depth),
      distinct_pair fingerprint safe_fingerprint,
    )

  abbrev pub after_tag :
      Finality → Result AnchorError (BlockRef × Text) × S → Result AnchorError SafeTip × S
  after_tag c (ok (b, fingerprint), s) = (ok (b, text "tag:" ++ c.tag, fingerprint ∷ []), s)
  after_tag c (err rpc_response, s) = confirmed_tip c s
  after_tag c (err tag_unavailable, s) = confirmed_tip c s
  after_tag c (err e, s) = (err e, s)

  -- `_safe_tip`.
  unfoldable pub safe_tip : Finality → Exec S AnchorError SafeTip
  safe_tip c s = after_tag c (read_by_tag c.tag s)

  abbrev pub store_read :
      ℕ
      → Session S
      → Result AnchorError (BlockRef × Text) × S
      → Result AnchorError BlockRef × Session S
  store_read number σ (ok (b, fingerprint), s) = (
    ok b,
    record {
      cache = (number, b) ∷ σ.cache;
      fingerprints = note σ.fingerprints fingerprint;
      rpc = s;
    },
  )
  store_read number σ (err e, s) = (err e, record σ { rpc = s })

  -- The inner function `read`, through the cache.
  unfoldable pub read : ℕ → Exec (Session S) AnchorError BlockRef
  read number σ = elim (cached number σ.cache) [
    | some b ↦ (ok b, σ)
    | none ↦ store_read number σ (read_by_number number σ.rpc)
  ]

  -- The second read of a proof block: past the cache, its endpoint noted when all has matched.
  unfoldable pub reread : ℕ → Exec (Session S) AnchorError (BlockRef × Text)
  reread number σ = let (r, s) = read_by_number number σ.rpc in (r, record σ { rpc = s })

  unfoldable pub note_endpoints : List Text → Exec (Session S) AnchorError (List Text)
  note_endpoints [] σ = (ok σ.fingerprints, σ)
  note_endpoints (f ∷ fs) σ = note_endpoints fs (record σ { fingerprints = note σ.fingerprints f })

  -- `while high - low > 1`: `high` rounds are enough, since the distance shrinks.
  unfoldable pub bisect : ℕ → ℕ → ℕ → ℕ → Exec (Session S) AnchorError (ℕ × ℕ)
  bisect zero boundary low high = raise out_of_fuel
  bisect (suc fuel) boundary low high =
      let middle = low + (high - low) / 2 in
      let up = bisect fuel boundary middle high in
      let down = bisect fuel boundary low middle in
      if ltb 1 (high - low)
      then (do candidate ← read middle; if ltb candidate.timestamp boundary then up else down)
      else pure (low, high)

  -- From the two proof blocks on: the second reads, which catch a provider that changes its view,
  -- and the proof.
  unfoldable pub confirm :
      Date → BlockRef → Text → BlockRef → BlockRef → Exec (Session S) AnchorError ResolvedAnchor
  confirm day tip source anchor next_block = do
    (confirmed_anchor, anchor_endpoint) ← reread anchor.number
    (confirmed_next, next_endpoint) ← reread next_block.number
    lift (
        raise_if (not (block_eq confirmed_anchor anchor && block_eq confirmed_next next_block))
          changed_during_resolution)
    fingerprints ← note_endpoints (anchor_endpoint ∷ next_endpoint ∷ [])
    let resolved : ResolvedAnchor = record {
      snapshot_date = day;
      anchor = confirmed_anchor;
      next_block = confirmed_next;
      safe_tip = tip;
      finality_source = source;
      endpoint_fingerprints = fingerprints;
    }
    lift (validate_resolved_anchor resolved)
    pure resolved

  -- From the safe tip on: the search, then the confirmation.
  unfoldable pub locate : Date → BlockRef → Text → Exec (Session S) AnchorError ResolvedAnchor
  locate day tip source = do
    let boundary = utc_day_end_timestamp day
    genesis ← read 0
    lift (raise_if (leb boundary genesis.timestamp) (invalid before_genesis))
    (low, high) ← bisect (suc tip.number) boundary 0 tip.number
    anchor ← read low
    next_block ← read high
    confirm day tip source anchor next_block

  abbrev pub from_tip :
      Date → Result AnchorError SafeTip × S → Result AnchorError ResolvedAnchor × S
  from_tip day (err e, s) = (err e, s)
  from_tip day (ok (tip, source, endpoints), s) =
      if ltb tip.timestamp (utc_day_end_timestamp day)
      then (err tip_before_boundary, s)
      else let (r, σ) =
          locate day tip source
            (record { cache = (tip.number, tip) ∷ []; fingerprints = endpoints; rpc = s }) in
        (r, σ.rpc)

  unfoldable pub resolve : Finality → Date → Exec S AnchorError ResolvedAnchor
  resolve c day s = from_tip day (safe_tip c s)
