-- ===== src/Compute/Tests.antt =====
-- A profile of three ticks.
use rpc_state_indexer.Prelude.{
  ℕ, zero, suc, ◌-◌, ◌≤◌, ◌≡◌, refl, some, List, [], ◌∷◌, ok, length, get_elem?, take, arith,
}
use rpc_state_indexer.Prelude.Int.{ℤ, pos, negsuc, ◌≤ℤ◌}
use rpc_state_indexer.Prelude.Text.{text}
use rpc_state_indexer.Compute.ClProfile.{TickRow, PoolState, ProfileRow, segment, segments}
use rpc_state_indexer.Compute.ClProfile.Sums.{Segment, sum_net, segments-Segment, segments-returns}

abbrev state : PoolState
state = record { pool_address = text "0xp"; attempt_id = text "a"; result_digest = text "d" }

abbrev tick_at : ℤ → ℤ → TickRow
tick_at t n = record { tick = t; liquidity_net = n }

abbrev ticks : List TickRow
ticks = tick_at (negsuc 9) (pos 7) ∷ tick_at (pos 0) (pos 5) ∷ tick_at (pos 20) (negsuc 11) ∷ []

abbrev rows : List ProfileRow
rows =
    segment 100 (text "2026-01-01") state (tick_at (negsuc 9) (pos 7)) (tick_at (pos 0) (pos 5))
      (pos 7)
    ∷ segment 100 (text "2026-01-01") state (tick_at (pos 0) (pos 5)) (tick_at (pos 20) (negsuc 11))
        (pos 12)
    ∷ []

segments_run : segments 100 (text "2026-01-01") state ticks ≡ ok rows
unfolding segments rpc_state_indexer.Prelude.Int.◌+ℤ◌
segments_run = refl

segments-Segment_example :
    (length rows ≡ length ticks - 1)
    × ((i : ℕ) (row : ProfileRow) → get_elem? rows i ≡ some row → Segment (pos 0) ticks i row)
segments-Segment_example = segments-Segment 100 (text "2026-01-01") state ticks rows segments_run

sums_fine : (i : ℕ) → pos 0 ≤ℤ sum_net (take i ticks)
unfolding rpc_state_indexer.Prelude.Int.◌+ℤ◌
sums_fine zero = omega arith
sums_fine (suc zero) = omega arith
sums_fine (suc (suc zero)) = omega arith
sums_fine (suc (suc (suc zero))) = omega arith
sums_fine (suc (suc (suc (suc i)))) = omega arith

segments-returns_example :
    (found : List ProfileRow) × (segments 100 (text "2026-01-01") state ticks ≡ ok found)
segments-returns_example = segments-returns 100 (text "2026-01-01") state ticks sums_fine
