-- ===== src/Domain.antt =====
-- domain.py: the values that the components exchange.
use rpc_state_indexer.Prelude.{
  ℕ, Bool, true, false, ◌&&◌, Option, none, some, List, ◌≡◌, Result, ok, err, arith, ◌==◌, ◌↔◌,
}
use rpc_state_indexer.Prelude.Int.{ℤ, pos}
use rpc_state_indexer.Prelude.Text.{Text, text_eq, text_eq_iff}

pub data ObservationStatus : Type 0 where
  ok_status reverted empty_return malformed_return no_code rpc_error anchor_mismatch :
      ObservationStatus

pub data IntegrityMode : Type 0 where
  full_supply scaled_full_supply scoped pool_assets cl_liquidity : IntegrityMode

pub data ExecutorKind : Type 0 where
  multicall3 legacy_rpc_batch : ExecutorKind

pub record BlockRef : Type 0 where
  pub number : ℕ
  pub block_hash : Text
  pub parent_hash : Text
  pub timestamp : ℕ

-- The dataclass's `==`.
unfoldable pub block_eq : BlockRef → BlockRef → Bool
block_eq a b =
    a.number == b.number
    && text_eq a.block_hash b.block_hash
    && text_eq a.parent_hash b.parent_hash
    && a.timestamp == b.timestamp

pub block_eq_iff : (a b : BlockRef) → (block_eq a b ≡ true) ↔ (a ≡ b)
unfolding block_eq
block_eq_iff a b =
    ground (arith, text_eq_iff a.block_hash b.block_hash, text_eq_iff a.parent_hash b.parent_hash)

-- The rows that the collectors make: unsigned integers are natural numbers.
pub record BalanceRow : Type 0 where
  pub holder_address : Text
  pub balance_raw : ℕ
  pub scaled_balance_raw : Option ℕ
  pub value_kind : Text
  pub batch_sequence : ℕ

pub record ScalarRow : Type 0 where
  pub scalar_name : Text
  pub scalar_raw : ℕ
  pub batch_sequence : ℕ

pub record PoolBalanceRow : Type 0 where
  pub pool_address : Text
  pub token_address : Text
  pub balance_raw : ℕ
  pub batch_sequence : ℕ

pub record PoolClStateRow : Type 0 where
  pub pool_address : Text
  pub pool_class : Text
  pub sqrt_price_x96 : ℕ
  pub current_tick : ℤ
  pub liquidity : ℕ
  pub fee_growth_global_0_x128 : ℕ
  pub fee_growth_global_1_x128 : ℕ
  pub tick_spacing : ℤ
  pub fee : ℕ
  pub tick_count : ℕ
  pub batch_sequence : ℕ

pub record PoolTickRow : Type 0 where
  pub pool_address : Text
  pub tick : ℤ
  pub liquidity_gross : ℕ
  pub liquidity_net : ℤ
  pub fee_growth_outside_0_x128 : ℕ
  pub fee_growth_outside_1_x128 : ℕ
  pub batch_sequence : ℕ

-- A mapping is the list of its items.
pub record FrozenUniverse : Type 0 where
  pub addresses : List Text
  pub sources : List (Text × List Text)
  pub universe_hash : Text

pub record IntegrityResult : Type 0 where
  pub passed : Bool
  pub check : Text
  pub observed : Option ℤ
  pub expected : Option ℤ

pub record UIntObservation : Type 0 where
  pub status : ObservationStatus
  pub value : Option ℤ
  pub raw : List ℕ
  pub detail : Text

pub data ObservationFault : Type 0 where
  requires_a_value must_not_contain_a_value : ObservationFault

-- `__post_init__`: a value exactly with the status `ok`, and never a negative one.
unfoldable pub make_observation :
    ObservationStatus → Option ℤ → List ℕ → Text → Result ObservationFault UIntObservation
make_observation ok_status (some (pos n)) raw detail =
    ok (record { status = ok_status; value = some (pos n); raw = raw; detail = detail })
make_observation ok_status _ raw detail = err requires_a_value
make_observation failed none raw detail =
    ok (record { status = failed; value = none; raw = raw; detail = detail })
make_observation failed (some v) raw detail = err must_not_contain_a_value

unfoldable pub is_ok : ObservationStatus → Bool
is_ok ok_status = true
is_ok _ = false
