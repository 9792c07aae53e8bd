-- ===== src/Discovery/Scanner.antt =====
-- `StrictLogScanner` of core/discovery.py. `rpc.call` is the parameter `call`: a method with its
-- own state `S`, which returns a JSON value with the endpoint's fingerprint, or raises.
pub mod Termination
pub mod Covers
pub mod Complete
use rpc_state_indexer.Prelude.{
  ℕ, zero, suc, ◌+◌, ◌-◌, ◌*◌, ◌≤◌, Bool, true, false, not, Option, none, some, List, [], ◌∷◌, ◌++◌,
  map, Result, ok, err, ◌>>=◌, ◌>>◌, raise_if, ltb, leb, ◌==◌, if◌then◌else◌, length, min,
}
use rpc_state_indexer.Prelude.Text.{Text, text}
use rpc_state_indexer.Json.{Json, arr, elements}
use rpc_state_indexer.Hex.{is_address}
use rpc_state_indexer.Discovery.Coverage.{
  BlockRange, size, lower_half, upper_half, range_leb, coverage_gaps,
}
use rpc_state_indexer.Discovery.Fault.{
  DiscoveryError, response, range_failed, value, not_array, one_block_limit, one_block_cap,
  rpc_failed, uncovered, out_of_fuel, bad_range, bad_scanner, bad_token_address,
}
use rpc_state_indexer.Discovery.Log.{
  LogFilter, NormalizedLog, make_filter, params, parse_hash, parse_log,
}
use rpc_state_indexer.Discovery.Dedup.{deduplicate_logs}

-- What `rpc.call` raises, as the `except` clauses of the scan tell it apart.
pub data CallFault : Type 0 where
  provider_limit other : CallFault

pub record CompletedRange : Type 0 where
  pub block_range : BlockRange
  pub log_count : ℕ
  pub endpoint_fingerprint : Text

pub record DiscoveryScan : Type 0 where
  pub requested_range : BlockRange
  pub completed_ranges : List CompletedRange
  pub logs : List NormalizedLog

-- The constructor's parameters.
pub record Settings : Type 0 where
  pub chunk_size : ℕ
  pub result_cap : ℕ

unfoldable pub make_settings : ℕ → ℕ → Result DiscoveryError Settings
make_settings chunk cap =
    if ltb chunk 1
    then err (value bad_scanner)
    else if ltb cap 1
    then err (value bad_scanner)
    else ok (record { chunk_size = chunk; result_cap = cap })

-- The first loop: one chunk after another, in ascending order. The list's head is the end of
-- Python's `pending` after `pending.reverse()`, which `pop` takes first.
unfoldable pub chunk_loop : ℕ → ℕ → ℕ → ℕ → List BlockRange
chunk_loop zero chunk cursor stop = []
chunk_loop (suc fuel) chunk cursor stop =
    let chunk_end = min (cursor + chunk) stop in
    let rest = chunk_loop fuel chunk chunk_end stop in
    if ltb cursor stop then record { start = cursor; end_exclusive = chunk_end } ∷ rest else []

unfoldable pub parse_logs :
    LogFilter → BlockRange → List Json → Result DiscoveryError (List NormalizedLog)
parse_logs f r [] = ok []
parse_logs f r (v ∷ vs) = do log ← parse_log f r v; logs ← parse_logs f r vs; ok (log ∷ logs)

unfoldable pub insert_completed : CompletedRange → List CompletedRange → List CompletedRange
insert_completed c [] = c ∷ []
insert_completed c (d ∷ rest) =
    if range_leb c.block_range d.block_range then c ∷ d ∷ rest else d ∷ insert_completed c rest

-- `completed.sort(key=lambda item: item.block_range)`.
unfoldable pub sort_completed : List CompletedRange → List CompletedRange
unfolding insert_completed
sort_completed [] = []
sort_completed (c ∷ rest) = insert_completed c (sort_completed rest)

abbrev pub ranges_of : List CompletedRange → List BlockRange
ranges_of = map λ c. c.block_range

-- After the loop: the proof of coverage, then the result.
unfoldable pub finish :
    BlockRange → List CompletedRange → List NormalizedLog → Result DiscoveryError DiscoveryScan
finish requested completed logs =
    elim (coverage_gaps requested (ranges_of (sort_completed completed))) [
      | [] ↦ do
        unique ← deduplicate_logs logs
        ok (record {
          requested_range = requested;
          completed_ranges = sort_completed completed;
          logs = unique;
        })
      | gap ∷ gaps ↦ err (range_failed (uncovered (gap ∷ gaps)))
    ]

-- What reading one range leads to: give up, split it, or take its logs.
pub data Verdict : Type 0 where
  give_up : DiscoveryError → Verdict
  halve : Verdict
  accept : List NormalizedLog → Text → Verdict

abbrev pub halve_or : BlockRange → DiscoveryError → Verdict
halve_or r e = if size r == 1 then give_up e else halve

abbrev pub accept_or : Text → Result DiscoveryError (List NormalizedLog) → Verdict
accept_or fingerprint (ok logs) = accept logs fingerprint
accept_or fingerprint (err e) = give_up e

unfoldable pub judge : Settings → LogFilter → BlockRange → Result CallFault (Json × Text) → Verdict
judge c f r (err provider_limit) = halve_or r (range_failed (one_block_limit r.start))
judge c f r (err other) = give_up (range_failed (rpc_failed r))
judge c f r (ok (arr vs, fingerprint)) =
    if leb c.result_cap (length (elements vs))
    then halve_or r (range_failed (one_block_cap r.start))
    else accept_or fingerprint (parse_logs f r (elements vs))
judge c f r (ok (_, fingerprint)) = give_up (response not_array)

pub record Progress : Type 0 where
  pub completed : List CompletedRange
  pub logs : List NormalizedLog

unfoldable pub take_range : Progress → BlockRange → List NormalizedLog → Text → Progress
take_range p r logs fingerprint = record {
  completed =
      p.completed
      ++ record { block_range = r; log_count = length logs; endpoint_fingerprint = fingerprint }
        ∷ [];
  logs = p.logs ++ logs;
}

module _ {S : Type 0} (call : Json → ℕ → S → Result CallFault (Json × Text) × S) where
  -- `_read_range`, up to the test that the value is an array.
  unfoldable pub read_range : LogFilter → BlockRange → S → Result CallFault (Json × Text) × S
  read_range f r s = call (params f r) (r.end_exclusive - 1) s

  -- The second loop of `scan_filter`.
  unfoldable pub scan_loop :
      ℕ → Settings → LogFilter → List BlockRange → Progress → S → Result DiscoveryError Progress × S
  scan_loop fuel c f [] p s = (ok p, s)
  scan_loop zero c f (r ∷ pending) p s = (err (range_failed out_of_fuel), s)
  scan_loop (suc fuel) c f (r ∷ pending) p s =
      let (answer, s') = read_range f r s in
      elim (judge c f r answer) [
        | give_up e ↦ (err e, s')
        | halve ↦ scan_loop fuel c f (lower_half r ∷ upper_half r ∷ pending) p s'
        | accept logs fingerprint ↦ scan_loop fuel c f pending (take_range p r logs fingerprint) s'
      ]

  abbrev pub finish_with :
      BlockRange → Result DiscoveryError Progress × S → Result DiscoveryError DiscoveryScan × S
  finish_with requested (ok p, s) = (finish requested p.completed p.logs, s)
  finish_with requested (err e, s) = (err e, s)

  abbrev pub start_progress : Progress
  start_progress = record { completed = []; logs = [] }

  -- `scan_filter`. Reading `n` blocks takes at most `2 * n` rounds.
  unfoldable pub scan_filter :
      Settings → LogFilter → ℕ → ℕ → S → Result DiscoveryError DiscoveryScan × S
  scan_filter c f start stop s =
      if leb stop start
      then (err (value bad_range), s)
      else let requested : BlockRange = record { start = start; end_exclusive = stop } in
        finish_with requested (
          scan_loop (2 * (stop - start)) c f (chunk_loop (stop - start) c.chunk_size start stop)
            start_progress s)

  abbrev pub scan_with :
      Settings
      → ℕ
      → ℕ
      → Result DiscoveryError LogFilter
      → S
      → Result DiscoveryError DiscoveryScan × S
  scan_with c start stop (ok f) s = scan_filter c f start stop s
  scan_with c start stop (err e) s = (err e, s)

  -- `scan`, for one contract and one event signature.
  unfoldable pub scan : Settings → Text → Json → ℕ → ℕ → S → Result DiscoveryError DiscoveryScan × S
  scan c token_address topic0 start stop s =
      scan_with c start stop
        (do
          raise_if (not (is_address token_address)) (value bad_token_address)
          topic ← parse_hash (text "topic0") topic0
          make_filter (some token_address) (some (topic ∷ []) ∷ []))
        s
