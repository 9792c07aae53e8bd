-- ===== src/Anchors.antt =====
-- core/anchors.py: the block that ends a UTC day, found by bisection over block timestamps and
-- proved by the two adjacent blocks.
pub mod Resolver
pub mod Tests
use rpc_state_indexer.Prelude.{
  ℕ, ◌+◌, ◌*◌, Bool, true, false, not, Option, none, some, List, ◌≡◌, Result, ok, err, ◌>>=◌, ◌>>◌,
  raise_if, ltb, leb, ◌==◌, if◌then◌else◌,
}
use rpc_state_indexer.Prelude.Text.{Text, text, text_eq}
use rpc_state_indexer.Json.{Json, null, bool, int, real, str, arr, obj, Fields, get}
use rpc_state_indexer.Hex.{is_quantity, int_16, is_hash, lower, lower_char}
use rpc_state_indexer.Domain.{BlockRef, block_eq}

-- `AnchorValidationError`, one constructor for each message.
pub data ValidationFault : Type 0 where
  not_a_block wrong_number before_genesis : ValidationFault
  not_before_boundary next_before_boundary not_adjacent not_linked : ValidationFault
  bad_quantity bad_hash : Text → ValidationFault

-- What the resolver raises; `rpc_response` and `tag_unavailable` are caught inside it.
pub data AnchorError : Type 0 where
  invalid : ValidationFault → AnchorError
  -- `AnchorNotFinalized`
  below_depth tip_before_boundary newer_than_tip : AnchorError
  -- `AnchorConflict`
  stored_differs changed_during_resolution : AnchorError
  rpc_response rpc_other tag_unavailable : AnchorError
  -- the model's fuel
  out_of_fuel : AnchorError

-- A day is its number from the epoch on.
abbrev pub Date : Type 0
Date = ℕ

-- Midnight after the day, in seconds: a day has 86400 of them in UTC.
unfoldable pub utc_day_end_timestamp : Date → ℕ
utc_day_end_timestamp d = (d + 1) * 86400

pub record ResolvedAnchor : Type 0 where
  pub snapshot_date : Date
  pub anchor : BlockRef
  pub next_block : BlockRef
  pub safe_tip : BlockRef
  pub finality_source : Text
  pub endpoint_fingerprints : List Text

unfoldable pub parse_quantity : Text → Json → Result AnchorError ℕ
unfolding is_quantity int_16
parse_quantity name (str s) =
    if is_quantity s then ok (int_16 s) else err (invalid (bad_quantity name))
parse_quantity name _ = err (invalid (bad_quantity name))

unfoldable pub parse_hash : Text → Json → Result AnchorError Text
unfolding is_hash lower_char
parse_hash name (str s) = if is_hash s then ok (lower s) else err (invalid (bad_hash name))
parse_hash name _ = err (invalid (bad_hash name))

abbrev pub is_expected : Option ℕ → ℕ → Bool
is_expected none n = true
is_expected (some e) n = n == e

unfoldable pub parse_block : Json → Option ℕ → Result AnchorError BlockRef
parse_block (obj v) expected = do
  number ← parse_quantity (text "number") (get (text "number") v)
  timestamp ← parse_quantity (text "timestamp") (get (text "timestamp") v)
  block_hash ← parse_hash (text "hash") (get (text "hash") v)
  parent_hash ← parse_hash (text "parentHash") (get (text "parentHash") v)
  raise_if (not (is_expected expected number)) (invalid wrong_number)
  ok (record {
    number = number;
    block_hash = block_hash;
    parent_hash = parent_hash;
    timestamp = timestamp;
  })
parse_block _ expected = err (invalid not_a_block)

unfoldable pub validate_resolved_anchor : ResolvedAnchor → Result AnchorError (Unit {0})
validate_resolved_anchor r = do
  let boundary = utc_day_end_timestamp r.snapshot_date
  raise_if (leb boundary r.anchor.timestamp) (invalid not_before_boundary)
  raise_if (ltb r.next_block.timestamp boundary) (invalid next_before_boundary)
  raise_if (not (r.next_block.number == r.anchor.number + 1)) (invalid not_adjacent)
  raise_if (not (text_eq r.next_block.parent_hash r.anchor.block_hash)) (invalid not_linked)
  raise_if (ltb r.safe_tip.number r.next_block.number) newer_than_tip

unfoldable pub assert_anchor_immutable : BlockRef → BlockRef → Result AnchorError (Unit {0})
unfolding block_eq
assert_anchor_immutable existing candidate =
    raise_if (not (block_eq existing candidate)) stored_differs
