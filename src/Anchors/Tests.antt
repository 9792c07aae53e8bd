-- ===== src/Anchors/Tests.antt =====
-- A small chain and an endpoint that serves it: the theorems on core/anchors.py at concrete inputs.
use rpc_state_indexer.Prelude.{
  ℕ, ◌+◌, ◌*◌, ◌%◌, ◌<◌, ◌≤◌, ◌≡◌, refl, ap, true, Option, none, some, [], ◌∷◌, ◌++◌, Result, ok,
  err, if◌then◌else◌, ◌==◌, replicate, arith, Bool-cases, inl, inr, ==_iff,
}
use rpc_state_indexer.Prelude.Text.{Text, text, text_eq}
use rpc_state_indexer.Json.{Json, str, arr, obj, cons, end, field}
use rpc_state_indexer.Hex.{hex, int_16}
use rpc_state_indexer.Hex.Quantity.{int_16-hex, hex-is_quantity}
use rpc_state_indexer.Domain.{BlockRef, block_eq}
use rpc_state_indexer.Prelude.Exec.{◌>>=◌}
use rpc_state_indexer.Anchors.{
  utc_day_end_timestamp, ResolvedAnchor, parse_quantity, parse_hash, parse_block,
  validate_resolved_anchor, is_expected,
}
use rpc_state_indexer.Anchors.Resolver.{
  CallFault, other_error, Finality, resolve, safe_tip, read_by_tag, locate, confirm, bisect, read,
  reread, note_endpoints, cached, read_by_number,
}
use rpc_state_indexer.Anchors.Resolver.Sound.{
  IsBoundary, resolve-IsBoundary, validate_resolved_anchor_iff,
}
use rpc_state_indexer.Anchors.Resolver.Total.{Serves, resolve_total}

abbrev hash_of : ℕ → Text
hash_of n = text "0x" ++ replicate 64 (if n % 2 == 0 then b'a' else b'b')

abbrev chain : ℕ → BlockRef
chain n = record {
  number = n;
  block_hash = hash_of n;
  parent_hash = hash_of (n + 1);
  timestamp = n * 30000;
}

abbrev block_json : ℕ → Json
block_json n = obj (
    field (text "number") (str (hex n)) (
      field (text "timestamp") (str (hex (n * 30000))) (
        field (text "hash") (str (hash_of n))
          (field (text "parentHash") (str (hash_of (n + 1))) end))))

abbrev finality : Finality
finality = record { tag = text "finalized"; confirmation_depth = 64 }

abbrev endpoint : Json → Unit {0} → Result CallFault (Json × Text) × Unit {0}
endpoint (arr (cons (str q) rest)) s =
    (ok (block_json (if text_eq q (text "finalized") then 7 else int_16 q), text "endpoint"), s)
endpoint _ s = (err other_error, s)

parse_quantity-hex : (name : Text) (n : ℕ) → parse_quantity name (str (hex n)) ≡ ok n
unfolding parse_quantity
parse_quantity-hex name n = rw (hex-is_quantity n) (ap ok (int_16-hex n))

parse_hash-hash_of : (name : Text) (n : ℕ) → parse_hash name (str (hash_of n)) ≡ ok (hash_of n)
unfolding parse_hash
parse_hash-hash_of name n = elim (Bool-cases (n % 2 == 0)) [ inl e ↦ rw e | inr e ↦ rw e ]

parse_block-block_json :
    (n : ℕ) (expected : Option ℕ)
    → is_expected expected n ≡ true
    → parse_block (block_json n) expected ≡ ok (chain n)
unfolding parse_block
parse_block-block_json n expected e = rw (
  parse_quantity-hex (text "number") n,
  parse_quantity-hex (text "timestamp") (n * 30000),
  parse_hash-hash_of (text "hash") n,
  parse_hash-hash_of (text "parentHash") (n + 1),
  e,
)

served : Serves endpoint (text "finalized") chain 7
served = record {
  numbered = λ n. refl;
  linked = λ n. let e : (n + 1 + 1) % 2 ≡ n % 2 = omega arith in rw e;
  by_number = λ n s le. (
    block_json (int_16 (hex n)),
    text "endpoint",
    s,
    unfold hex in refl,
    rw (int_16-hex n) (parse_block-block_json n (some n) ((==_iff n n).1 refl)),
  );
  by_tag = λ s. (block_json 7, text "endpoint", s, refl, parse_block-block_json 7 none refl);
}

resolve_total_example :
    (r : ResolvedAnchor) × (t : Unit {0}) × (resolve endpoint finality 1 tt ≡ (ok r, t))
    × (r.anchor ≡ chain r.anchor.number)
    × ((n : ℕ) → n ≤ r.anchor.number → (chain n).timestamp < utc_day_end_timestamp 1)
    × ((n : ℕ) → r.anchor.number < n → utc_day_end_timestamp 1 ≤ (chain n).timestamp)
unfolding utc_day_end_timestamp
resolve_total_example =
    resolve_total endpoint finality chain 7 served (λ m n le. omega arith) 1 tt (omega arith)
      (omega arith)

-- Day 1 ends after 172800 seconds: block 5 is at 150000, block 6 at 180000.
abbrev resolved : ResolvedAnchor
resolved = record {
  snapshot_date = 1;
  anchor = chain 5;
  next_block = chain 6;
  safe_tip = chain 7;
  finality_source = text "tag:finalized";
  endpoint_fingerprints = text "endpoint" ∷ [];
}

resolve_runs : resolve endpoint finality 1 tt ≡ (ok resolved, tt)
unfolding resolve safe_tip read_by_tag locate confirm bisect read reread note_endpoints cached
    read_by_number parse_block parse_quantity parse_hash hex validate_resolved_anchor block_eq
    utc_day_end_timestamp ◌>>=◌
resolve_runs = refl

resolve-IsBoundary_example :
    IsBoundary resolved
    × (resolved.snapshot_date ≡ 1)
    × (utc_day_end_timestamp 1 ≤ resolved.safe_tip.timestamp)
resolve-IsBoundary_example = resolve-IsBoundary endpoint finality 1 tt tt resolved resolve_runs

validate_resolved_anchor_iff_example :
    (validate_resolved_anchor resolved ≡ ok tt → IsBoundary resolved)
    × (IsBoundary resolved → validate_resolved_anchor resolved ≡ ok tt)
validate_resolved_anchor_iff_example = validate_resolved_anchor_iff resolved
