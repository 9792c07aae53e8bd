-- ===== src/Discovery/Service/Tests.antt =====
-- The discovery service on concrete input: a provider without logs.
use rpc_state_indexer.Prelude.{
  ℕ, ◌<◌, ◌+◌, Bool, true, false, List, [], ◌∷◌, ◌≡◌, refl, Option, some, Result, ok, err, length,
  All, replicate, ◌++◌, arith,
}
use rpc_state_indexer.Prelude.Text.{Text, text}
use rpc_state_indexer.Json.{Json, arr, nil}
use rpc_state_indexer.Discovery.Coverage.{BlockRange, contains}
use rpc_state_indexer.Discovery.Scanner.{CallFault, Settings, other}
use rpc_state_indexer.Discovery.Service.{
  EventConfig, DiscoveredToken, Service, State, StoreWrite, insert_discovery_ranges, RangeRow,
  completed_discovery_ranges, advance, ServiceFault,
}
use rpc_state_indexer.Discovery.Service.Growth.{Grows}
use rpc_state_indexer.Discovery.Service.Advances.{EventCovered, required_range, advance-Advances}

abbrev answer : Bool → Json → ℕ → ℕ → Result CallFault (Json × Text) × ℕ
answer true query block served = (ok (arr nil, text "fp"), served + 1)
answer false query block served = (err other, served)

abbrev service : Bool → Service ℕ
service is_up = record {
  settings = record { chunk_size = 10; result_cap = 100 };
  call = answer is_up;
  validate_holder_topics = λ event. some (text "0x" ++ replicate 64 b'a');
  accepts = λ w rows. true;
  now = λ rows. length rows;
  uuid4 = λ rows. length rows ∷ [];
  class_name = λ fault. text "DiscoveryRangeFailed";
  detail = λ fault. text "failed";
}

abbrev token : DiscoveredToken
token = record {
  address = text "0x" ++ replicate 40 b'b';
  deployment_block = 5;
  discovery_events =
      record { abi = text "erc20"; event = text "Transfer"; holder_topics = 1 ∷ 2 ∷ [] } ∷ [];
  zero_is_holder = false;
}

abbrev fresh : State ℕ
fresh = record { net = 0; rows = [] }

advances : Bool → Result ServiceFault (Unit {0}) × State ℕ
unfolding advance rpc_state_indexer.Prelude.Exec.◌>>=◌ rpc_state_indexer.Discovery.Coverage.make
    rpc_state_indexer.Discovery.Service.advance_events rpc_state_indexer.Discovery.Service.scan_gaps
    rpc_state_indexer.Discovery.Coverage.coverage_gaps rpc_state_indexer.Discovery.Service.scan_gap
    rpc_state_indexer.Discovery.Scanner.scan rpc_state_indexer.Hex.is_address
    rpc_state_indexer.Discovery.Log.parse_hash rpc_state_indexer.Discovery.Log.make_filter
    rpc_state_indexer.Discovery.Scanner.scan_filter rpc_state_indexer.Discovery.Scanner.scan_loop
    rpc_state_indexer.Discovery.Scanner.chunk_loop rpc_state_indexer.Discovery.Scanner.judge
    rpc_state_indexer.Discovery.Scanner.read_range rpc_state_indexer.Discovery.Scanner.parse_logs
    rpc_state_indexer.Discovery.Scanner.finish rpc_state_indexer.Discovery.Coverage.gaps_loop
    rpc_state_indexer.Discovery.Coverage.insert_range
    rpc_state_indexer.Discovery.Coverage.merge_coverage
    rpc_state_indexer.Discovery.Coverage.merge_loop
    rpc_state_indexer.Discovery.Coverage.merge_ordered
    rpc_state_indexer.Discovery.Coverage.sort_ranges rpc_state_indexer.Discovery.Dedup.dedup_loop
    rpc_state_indexer.Discovery.Dedup.deduplicate_logs
    rpc_state_indexer.Discovery.Dedup.find_identity rpc_state_indexer.Discovery.Dedup.insert_log
    rpc_state_indexer.Discovery.Dedup.log_eq rpc_state_indexer.Discovery.Dedup.same_identity
    rpc_state_indexer.Discovery.Dedup.sort_logs rpc_state_indexer.Discovery.Holders.collect_holders
    rpc_state_indexer.Discovery.Holders.extract_holders
    rpc_state_indexer.Discovery.Holders.insert_holder
    rpc_state_indexer.Discovery.Holders.insert_holders rpc_state_indexer.Discovery.Log.holder_of
    rpc_state_indexer.Discovery.Log.holders rpc_state_indexer.Discovery.Log.matches_topics
    rpc_state_indexer.Discovery.Log.params rpc_state_indexer.Discovery.Log.parse_address
    rpc_state_indexer.Discovery.Log.parse_data rpc_state_indexer.Discovery.Log.parse_fields
    rpc_state_indexer.Discovery.Log.parse_log rpc_state_indexer.Discovery.Log.parse_quantity
    rpc_state_indexer.Discovery.Log.parse_topic_list rpc_state_indexer.Discovery.Log.parse_topics
    rpc_state_indexer.Discovery.Scanner.insert_completed
    rpc_state_indexer.Discovery.Scanner.sort_completed
    rpc_state_indexer.Discovery.Scanner.take_range rpc_state_indexer.Discovery.Service.holder_rows
    rpc_state_indexer.Discovery.Service.observe rpc_state_indexer.Discovery.Service.range_rows
    rpc_state_indexer.Discovery.Service.record_scan rpc_state_indexer.Discovery.Service.write
    rpc_state_indexer.Hex.digit_char rpc_state_indexer.Hex.digit_value rpc_state_indexer.Hex.hex
    rpc_state_indexer.Hex.hex_loop rpc_state_indexer.Hex.int_16 rpc_state_indexer.Hex.int_loop
    rpc_state_indexer.Hex.is_digit rpc_state_indexer.Hex.is_hash rpc_state_indexer.Hex.is_hex
    rpc_state_indexer.Hex.is_hex_data rpc_state_indexer.Hex.is_lower_hex
    rpc_state_indexer.Hex.is_quantity rpc_state_indexer.Hex.lower_char
    rpc_state_indexer.Hex.strip_0x rpc_state_indexer.Prelude.Exec.lift
    rpc_state_indexer.Prelude.Exec.pure rpc_state_indexer.Prelude.Exec.raise
advances is_up = advance (service is_up) token 12 (text "0xaa") fresh

-- One scan of the blocks 5 to 12.
all_covered :
    completed_discovery_ranges token.address (text "0x" ++ replicate 64 b'a') (advances true).1.rows
    ≡ record { start = 5; end_exclusive = 13 } ∷ []
unfolding advances
all_covered = refl

-- A failed scan stores its row, and covers nothing.
none_covered :
    completed_discovery_ranges token.address
      (text "0x" ++ replicate 64 b'a')
      (advances false).1.rows
    ≡ []
unfolding advances
none_covered = refl

one_failure : length (advances false).1.rows ≡ 1
unfolding advances
one_failure = refl

advance-Advances_example :
    let (result, after) = advance (service true) token 12 (text "0xaa") fresh in
    Grows (contains (required_range token 12)) [] after.rows
    × (result ≡ ok tt
        → All
            (EventCovered (service true) token (required_range token 12) after.rows)
            token.discovery_events)
advance-Advances_example =
    advance-Advances (service true) token 12 (text "0xaa") fresh (omega arith) (λ a t. tt)
