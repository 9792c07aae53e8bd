-- ===== src/Discovery/Tests.antt =====
-- Runs of core/discovery.py, and its theorems at concrete inputs.
use rpc_state_indexer.Prelude.{
  ℕ, ◌+◌, ◌-◌, ◌<◌, ◌≤◌, ◌≡◌, refl, sym, ap, true, false, not, ◌&&◌, none, some, List, [], ◌∷◌,
  ◌++◌, Result, ok, err, ◌==◌, if◌then◌else◌, length, replicate, arith, Bool-cases, inl, inr,
}
use rpc_state_indexer.Prelude.Text.{Text, text}
use rpc_state_indexer.Json.{
  Json, bool, str, arr, obj, Elements, nil, cons, end, field, elements, get,
}
use rpc_state_indexer.Hex.{hex, int_16}
use rpc_state_indexer.Hex.Quantity.{int_16-hex}
use rpc_state_indexer.Discovery.Log.Laws.{parse_quantity-hex, parse_log-Accepted, Accepted}
use rpc_state_indexer.Discovery.Coverage.{
  BlockRange, size, merge_coverage, contiguous_frontier, coverage_gaps, covered, contains, IsValid,
  Separated,
}
use rpc_state_indexer.Discovery.Coverage.Merge.{covered-merge_coverage, merge_coverage-Separated}
use rpc_state_indexer.Discovery.Coverage.Frontier.{contiguous_frontier-first_uncovered}
use rpc_state_indexer.Discovery.Coverage.Gaps.{covered-coverage_gaps}
use rpc_state_indexer.Discovery.Log.{
  LogFilter, NormalizedLog, parse_log, parse_fields, params, matches_topics, parse_address,
  parse_topic_list, parse_data, parse_quantity, parse_hash,
}
use rpc_state_indexer.Discovery.Dedup.{
  deduplicate_logs, dedup_loop, find_identity, log_eq, sort_logs,
}
use rpc_state_indexer.Discovery.Dedup.Laws.{
  deduplicate_logs-laws, HasDistinctIdentities, contains_log, IsKeySorted,
}
use rpc_state_indexer.Discovery.Scanner.{
  CallFault, provider_limit, other, CompletedRange, DiscoveryScan, Settings, read_range,
  scan_filter, scan_loop, chunk_loop, judge, parse_logs, take_range, finish, sort_completed,
}
use rpc_state_indexer.Discovery.Scanner.Covers.{ScanOutcome, scan_filter-ScanOutcome}
use rpc_state_indexer.Discovery.Scanner.Complete.{logs_from, scan_filter_complete}

abbrev range : ℕ → ℕ → BlockRange
range a b = record { start = a; end_exclusive = b }

abbrev completed : List BlockRange
completed = range 20 30 ∷ range 5 12 ∷ range 10 15 ∷ range 30 31 ∷ []

merge_runs : merge_coverage completed ≡ range 5 15 ∷ range 20 31 ∷ []
unfolding merge_coverage
merge_runs = refl

gaps_run : coverage_gaps (range 0 40) completed ≡ range 0 5 ∷ range 15 20 ∷ range 31 40 ∷ []
unfolding coverage_gaps
gaps_run = refl

frontier_runs : contiguous_frontier 6 completed ≡ 15
unfolding contiguous_frontier
frontier_runs = refl

covered-merge_coverage_example : covered (merge_coverage completed) 14 ≡ covered completed 14
covered-merge_coverage_example = covered-merge_coverage completed 14

merge_coverage-Separated_example : Separated 0 (merge_coverage completed)
merge_coverage-Separated_example = merge_coverage-Separated completed (omega arith)

covered-coverage_gaps_example :
    covered (coverage_gaps (range 0 40) completed) 17
    ≡ (contains (range 0 40) 17 && not (covered completed 17))
covered-coverage_gaps_example = covered-coverage_gaps (range 0 40) completed 17 (omega arith)

contiguous_frontier-first_uncovered_example :
    let frontier = contiguous_frontier 6 completed in
    (6 ≤ frontier)
    × ((b : ℕ) → 6 ≤ b → b < frontier → covered completed b ≡ true)
    × (covered completed frontier ≡ false)
contiguous_frontier-first_uncovered_example =
    contiguous_frontier-first_uncovered 6 completed (omega arith)

parse_quantity-hex_example : parse_quantity (text "blockNumber") (str (hex 43981)) ≡ ok 43981
parse_quantity-hex_example = parse_quantity-hex (text "blockNumber") 43981

hex_runs : hex 43981 ≡ text "0xabcd"
unfolding hex
hex_runs = refl

-- A chain with one log in each block, and a provider that serves single blocks only.
abbrev word : ℕ → Text
word d = text "0x" ++ replicate 64 d

abbrev log_of : ℕ → Json
log_of n = obj (
    field (text "address") (str (text "0x" ++ replicate 40 b'c')) (
      field (text "removed") (bool false) (
        field (text "topics") (arr (cons (str (word b'7')) nil)) (
          field (text "data") (str (text "0x00")) (
            field (text "blockNumber") (str (hex n)) (
              field (text "transactionIndex") (str (text "0x0")) (
                field (text "logIndex") (str (hex n)) (
                  field (text "blockHash") (str (word b'a'))
                    (field (text "transactionHash") (str (word b'B')) end)))))))))

abbrev chain : ℕ → List Json
chain n = log_of n ∷ []

abbrev single_block : Json → ℕ → Unit {0} → Result CallFault (Json × Text) × Unit {0}
single_block (obj v) block s = elim (get (text "fromBlock") v) [
  | str from ↦ (
    if int_16 from == block
        then ok (arr (cons (log_of block) nil), text "endpoint")
        else err provider_limit,
    s,
  )
  | _ ↦ (err other, s)
]
single_block _ block s = (err other, s)

abbrev transfers : LogFilter
transfers = record { address = none; topics = some (word b'7' ∷ []) ∷ [] }

abbrev settings : Settings
settings = record { chunk_size = 3; result_cap = 2 }

single_block-truthful :
    (r : BlockRange) (s : Unit {0}) (vs : Elements) (fp : Text)
    → IsValid r
    → (read_range single_block transfers r s).0 ≡ ok (arr vs, fp)
    → length (elements vs) < 2
    → elements vs ≡ logs_from chain r.start (size r)
unfolding read_range params
single_block-truthful r s vs fp v answer below =
    elim (Bool-cases (int_16 (hex r.start) == (r.end_exclusive - 1))) [
      | inr ne ↦ absurd (cc (rw ne at answer))
      | inl e ↦
          let start : r.start ≡ r.end_exclusive - 1 = ground (arith, int_16-hex r.start) in
          let one : size r ≡ 1 = omega arith in
          let same : cons (log_of (r.end_exclusive - 1)) nil ≡ vs = cc (rw e at answer) in
          rw (← same, one) (ap (λ (n : ℕ). log_of n ∷ []) (sym start))
    ]

abbrev decoded : ℕ → NormalizedLog
decoded n = record {
  address = text "0x" ++ replicate 40 b'c';
  topic0 = word b'7';
  topics = word b'7' ∷ [];
  payload = text "0x00";
  block_number = n;
  block_hash = word b'a';
  transaction_hash = word b'b';
  transaction_index = 0;
  log_index = n;
}

log_runs : parse_log transfers (range 10 14) (log_of 12) ≡ ok (decoded 12)
unfolding parse_log parse_fields parse_address parse_topic_list parse_data parse_quantity parse_hash
    matches_topics hex
log_runs = refl

parse_log-Accepted_example : Accepted transfers (range 10 14) (log_of 12) (decoded 12)
parse_log-Accepted_example =
    parse_log-Accepted transfers (range 10 14) (log_of 12) (decoded 12) log_runs

abbrev one_block : ℕ → CompletedRange
one_block n = record {
  block_range = range n (n + 1);
  log_count = 1;
  endpoint_fingerprint = text "endpoint";
}

abbrev scanned : DiscoveryScan
scanned = record {
  requested_range = range 10 14;
  completed_ranges = one_block 10 ∷ one_block 11 ∷ one_block 12 ∷ one_block 13 ∷ [];
  logs = decoded 10 ∷ decoded 11 ∷ decoded 12 ∷ decoded 13 ∷ [];
}

-- The ranges are halved down to single blocks.
scan_runs : (scan_filter single_block settings transfers 10 14 tt).0 ≡ ok scanned
unfolding scan_filter scan_loop chunk_loop read_range params judge parse_logs parse_log parse_fields
    parse_address parse_topic_list parse_data parse_quantity parse_hash matches_topics take_range
    finish coverage_gaps sort_completed deduplicate_logs dedup_loop find_identity sort_logs log_eq
scan_runs = refl

scan_filter_complete_example :
    (all : List NormalizedLog) × (parse_logs transfers (range 10 14) (logs_from chain 10 4)
      ≡ ok all)
    × (deduplicate_logs all ≡ ok scanned.logs)
scan_filter_complete_example =
    scan_filter_complete single_block settings transfers chain single_block-truthful 10 14 tt
      scanned (omega arith) scan_runs

scan_filter-ScanOutcome_example :
    ScanOutcome (range 10 14) (scan_filter single_block settings transfers 10 14 tt).0
scan_filter-ScanOutcome_example =
    scan_filter-ScanOutcome single_block settings transfers 10 14 tt (omega arith) (omega arith)

abbrev twice_logged : List NormalizedLog
twice_logged = decoded 7 ∷ decoded 3 ∷ decoded 7 ∷ []

dedup_runs : deduplicate_logs twice_logged ≡ ok (decoded 3 ∷ decoded 7 ∷ [])
unfolding deduplicate_logs dedup_loop find_identity sort_logs log_eq
dedup_runs = refl

deduplicate_logs-laws_example :
    HasDistinctIdentities (decoded 3 ∷ decoded 7 ∷ [])
    × ((x : NormalizedLog)
        → contains_log x (decoded 3 ∷ decoded 7 ∷ []) ≡ contains_log x twice_logged)
    × IsKeySorted (decoded 3 ∷ decoded 7 ∷ [])
deduplicate_logs-laws_example =
    deduplicate_logs-laws twice_logged (decoded 3 ∷ decoded 7 ∷ []) dedup_runs
