-- ===== src/Compute/ClProfile.antt =====
-- `_segments` of compute/cl_profile.py.
pub mod Sums
use rpc_state_indexer.Prelude.{
  ℕ, zero, suc, Bool, List, [], ◌∷◌, Result, ok, err, ◌>>=◌, if◌then◌else◌,
}
use rpc_state_indexer.Prelude.Int.{ℤ, pos, ◌+ℤ◌, ltb_ℤ}
use rpc_state_indexer.Prelude.Text.{Text}

-- A row of the published ticks, and what a pool's published state gives to every segment.
pub record TickRow : Type 0 where
  pub tick : ℤ
  pub liquidity_net : ℤ

pub record PoolState : Type 0 where
  pub pool_address : Text
  pub attempt_id : Text
  pub result_digest : Text

pub record ProfileRow : Type 0 where
  pub chain_id : ℕ
  pub pool_address : Text
  pub snapshot_date : Text
  pub tick_lower : ℤ
  pub tick_upper : ℤ
  pub active_liquidity : ℤ
  pub source_attempt_id : Text
  pub source_result_digest : Text

-- `ValueError`, with the tick and the sum.
pub data ProfileFault : Type 0 where
  negative_liquidity : ℤ → ℤ → ProfileFault

module _ (chain_id : ℕ) (snapshot_date : Text) (state : PoolState) where
  abbrev pub segment : TickRow → TickRow → ℤ → ProfileRow
  segment lower upper cumulative = record {
    chain_id = chain_id;
    pool_address = state.pool_address;
    snapshot_date = snapshot_date;
    tick_lower = lower.tick;
    tick_upper = upper.tick;
    active_liquidity = cumulative;
    source_attempt_id = state.attempt_id;
    source_result_digest = state.result_digest;
  }

  -- The loop over `zip(ticks, ticks[1:])`.
  unfoldable pub segments_loop : ℤ → List TickRow → Result ProfileFault (List ProfileRow)
  segments_loop cumulative [] = ok []
  segments_loop cumulative (lower ∷ []) = ok []
  segments_loop cumulative (lower ∷ upper ∷ rest) =
      let sum = cumulative +ℤ lower.liquidity_net in
      let later = segments_loop sum (upper ∷ rest) in
      if ltb_ℤ sum (pos 0)
      then err (negative_liquidity lower.tick sum)
      else later >>= λ rows. ok (segment lower upper sum ∷ rows)

  unfoldable pub segments : List TickRow → Result ProfileFault (List ProfileRow)
  unfolding segments_loop
  segments ticks = segments_loop (pos 0) ticks
