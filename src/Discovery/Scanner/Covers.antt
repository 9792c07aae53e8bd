-- ===== src/Discovery/Scanner/Covers.antt =====
-- `scan_filter` covers what was requested: the chunks are the requested range, and the check for
-- gaps at the end never fails.
use native.Mathlib.Nat.{le_refl}
use rpc_state_indexer.Prelude.{
  ℕ, zero, suc, ◌+◌, ◌-◌, ◌*◌, ◌<◌, ◌≤◌, ◌≡◌, ◌≢◌, refl, ◌∙◌, false, ◌&&◌, inl, inr, List, [], ◌∷◌,
  All, Result, ok, err, Bool-cases, Result-cases, RaisesOnly, RaisesOnly-ok, RaisesOnly-bind,
  Option, none, some, arith, tests, ltb, leb, min, ◌>>=◌,
}
use rpc_state_indexer.Prelude.Text.{Text}
use rpc_state_indexer.Json.{Json}
use rpc_state_indexer.Discovery.Coverage.{BlockRange, range_leb, contains, covered, IsValid}
use rpc_state_indexer.Discovery.Coverage.Gaps.{coverage_gaps-nil}
use rpc_state_indexer.Discovery.Fault.{DiscoveryError, range_failed, out_of_fuel, uncovered}
use rpc_state_indexer.Discovery.Log.{LogFilter, NormalizedLog}
use rpc_state_indexer.Discovery.Dedup.{
  deduplicate_logs, dedup_loop, record_log, find_identity, log_eq,
}
use rpc_state_indexer.Discovery.Scanner.{
  CallFault, CompletedRange, DiscoveryScan, Settings, chunk_loop, insert_completed, sort_completed,
  ranges_of, finish, Progress, scan_filter, start_progress, finish_with,
}
use rpc_state_indexer.Discovery.Scanner.Termination.{
  rounds, Scanned, scan_loop-Scanned, FromResponse-ne,
}
use rpc_state_indexer.Discovery.Log.Laws.{FromResponse, RaisesOnly-test}

covered-insert_completed :
    (c : CompletedRange) (cs : List CompletedRange) (b : ℕ)
    → covered (ranges_of (insert_completed c cs)) b ≡ covered (ranges_of (c ∷ cs)) b
unfolding insert_completed
covered-insert_completed c [] b = refl
covered-insert_completed c (d ∷ cs) b = elim (Bool-cases (range_leb c.block_range d.block_range)) [
  | inl e ↦ rw e
  | inr e ↦ rw e (ground (arith, covered-insert_completed c cs b))
]

covered-sort_completed :
    (cs : List CompletedRange) (b : ℕ)
    → covered (ranges_of (sort_completed cs)) b ≡ covered (ranges_of cs) b
unfolding sort_completed
covered-sort_completed [] b = refl
covered-sort_completed (c ∷ cs) b =
    covered-insert_completed c (sort_completed cs) b ∙ ground (arith, covered-sort_completed cs b)

insert_completed-IsValid :
    (c : CompletedRange) (cs : List CompletedRange)
    → IsValid c.block_range
    → All IsValid (ranges_of cs)
    → All IsValid (ranges_of (insert_completed c cs))
unfolding insert_completed
insert_completed-IsValid c [] v w = (v, tt)
insert_completed-IsValid c (d ∷ cs) v w =
    elim (Bool-cases (range_leb c.block_range d.block_range)) [
      | inl e ↦ rw e (v, w)
      | inr e ↦ rw e (w.0, insert_completed-IsValid c cs v w.1)
    ]

sort_completed-IsValid :
    (cs : List CompletedRange)
    → All IsValid (ranges_of cs)
    → All IsValid (ranges_of (sort_completed cs))
unfolding sort_completed
sort_completed-IsValid [] w = tt
sort_completed-IsValid (c ∷ cs) w =
    insert_completed-IsValid c (sort_completed cs) w.0 (sort_completed-IsValid cs w.1)

covered-chunk_loop :
    (fuel chunk cursor stop b : ℕ)
    → 0 < chunk
    → stop - cursor ≤ fuel
    → covered (chunk_loop fuel chunk cursor stop) b ≡ (leb cursor b && ltb b stop)
unfolding chunk_loop
covered-chunk_loop zero chunk cursor stop b h enough = ground arith
covered-chunk_loop (suc fuel) chunk cursor stop b h enough = elim (Bool-cases (ltb cursor stop)) [
  | inl more ↦
      rw more (ground (arith, covered-chunk_loop fuel chunk (min (cursor + chunk) stop) stop b h))
  | inr done ↦ rw done (ground arith)
]

chunk_loop-IsValid :
    (fuel chunk cursor stop : ℕ) → 0 < chunk → All IsValid (chunk_loop fuel chunk cursor stop)
unfolding chunk_loop
chunk_loop-IsValid zero chunk cursor stop h = tt
chunk_loop-IsValid (suc fuel) chunk cursor stop h = elim (Bool-cases (ltb cursor stop)) [
  | inl more ↦ rw more (ground arith, chunk_loop-IsValid fuel chunk _ stop h)
  | inr done ↦ rw done tt
]

rounds-chunk_loop :
    (fuel chunk cursor stop : ℕ) → rounds (chunk_loop fuel chunk cursor stop) ≤ 2 * (stop - cursor)
unfolding chunk_loop
rounds-chunk_loop zero chunk cursor stop = omega arith
rounds-chunk_loop (suc fuel) chunk cursor stop = elim (Bool-cases (ltb cursor stop)) [
  | inl more ↦
      rw more (omega (tests, rounds-chunk_loop fuel chunk (min (cursor + chunk) stop) stop))
  | inr done ↦ rw done (omega arith)
]

-- The end of a scan whose completed ranges cover the requested one.
finish_covering :
    (requested : BlockRange) (cs : List CompletedRange) (logs : List NormalizedLog)
    → All IsValid (ranges_of cs)
    → ((b : ℕ) → covered (ranges_of cs) b ≡ contains requested b)
    → finish requested cs logs ≡ (do
      unique ← deduplicate_logs logs
      ok (record {
        requested_range = requested;
        completed_ranges = sort_completed cs;
        logs = unique;
      }))
unfolding finish
finish_covering requested cs logs v same = rw (
  coverage_gaps-nil requested (ranges_of (sort_completed cs)) (sort_completed-IsValid cs v)
      (λ b h. covered-sort_completed cs b ∙ same b ∙ h),
  finish,
)

record_log-raises :
    (seen : List NormalizedLog) (log : NormalizedLog) (o : Option NormalizedLog)
    → RaisesOnly FromResponse (record_log seen log o)
record_log-raises seen log none = RaisesOnly-ok _
record_log-raises seen log (some previous) = RaisesOnly-test (log_eq previous log) seen _

dedup_loop-raises :
    (seen logs : List NormalizedLog) → RaisesOnly FromResponse (dedup_loop seen logs)
unfolding dedup_loop
dedup_loop-raises seen [] = RaisesOnly-ok seen
dedup_loop-raises seen (log ∷ logs) =
    RaisesOnly-bind (record_log seen log (find_identity log seen)) _ (record_log-raises seen log _)
      λ seen'. dedup_loop-raises seen' logs

deduplicate_logs-raises :
    (logs : List NormalizedLog) → RaisesOnly FromResponse (deduplicate_logs logs)
unfolding deduplicate_logs
deduplicate_logs-raises logs =
    RaisesOnly-bind (dedup_loop [] logs) _ (dedup_loop-raises [] logs) λ seen. RaisesOnly-ok _

-- What `scan_filter` promises for a requested range.
abbrev pub ScanOutcome : BlockRange → Result DiscoveryError DiscoveryScan → Type 0
ScanOutcome requested (ok scan) =
    (scan.requested_range ≡ requested)
    × All IsValid (ranges_of scan.completed_ranges)
    × ((b : ℕ) → covered (ranges_of scan.completed_ranges) b ≡ contains requested b)
ScanOutcome requested (err e) =
    (e ≢ range_failed out_of_fuel) × ((gs : List BlockRange) → e ≢ range_failed (uncovered gs))

finish-ScanOutcome :
    (requested : BlockRange) (cs : List CompletedRange) (logs : List NormalizedLog)
    → All IsValid (ranges_of cs)
    → ((b : ℕ) → covered (ranges_of cs) b ≡ contains requested b)
    → ScanOutcome requested (finish requested cs logs)
finish-ScanOutcome requested cs logs v same =
    rw (finish_covering requested cs logs v same) (elim (Result-cases (deduplicate_logs logs)) [
      | inl (unique, e) ↦
          rw e (refl, sort_completed-IsValid cs v, λ b. covered-sort_completed cs b ∙ same b)
      | inr (fault, e) ↦
          let p : FromResponse fault = (deduplicate_logs-raises logs).at fault e in
          rw e (FromResponse-ne fault _ p, λ gs. FromResponse-ne fault _ p)
    ])

module _ {S : Type 0} (call : Json → ℕ → S → Result CallFault (Json × Text) × S) where
  finish_with-ScanOutcome :
      (start stop : ℕ) (chunks : List BlockRange) (result : Result DiscoveryError Progress × S)
      → ((b : ℕ) → covered chunks b ≡ (leb start b && ltb b stop))
      → Scanned chunks (start_progress call) result.0
      → let requested : BlockRange = record { start = start; end_exclusive = stop } in
        ScanOutcome requested (finish_with call requested result).0
  finish_with-ScanOutcome start stop chunks (ok p, s) same h =
      finish-ScanOutcome _ p.completed p.logs h.0 (λ b. h.1 b ∙ same b)
  finish_with-ScanOutcome start stop chunks (err e, s) same h = h

  -- For a positive chunk size and a non-empty request, whatever the provider answers: a scan that
  -- returns has completed ranges which are non-empty and cover exactly the requested blocks, and a
  -- scan that raises does not do so because a range was left out or because its loop did not end.
  pub scan_filter-ScanOutcome :
      (c : Settings) (f : LogFilter) (start stop : ℕ) (s : S)
      → 0 < c.chunk_size
      → start < stop
      → let requested : BlockRange = record { start = start; end_exclusive = stop } in
        ScanOutcome requested (scan_filter call c f start stop s).0
  unfolding scan_filter
  scan_filter-ScanOutcome c f start stop s positive nonempty =
      let chunks = chunk_loop (stop - start) c.chunk_size start stop in
      let open_end : leb stop start ≡ false = ground arith in
      rw (open_end, scan_filter)
        (finish_with-ScanOutcome start stop chunks _
          (λ b. covered-chunk_loop (stop - start) c.chunk_size start stop b positive (le_refl _))
          (scan_loop-Scanned call c f (2 * (stop - start)) chunks (start_progress call) s
            (rounds-chunk_loop (stop - start) c.chunk_size start stop)
            (chunk_loop-IsValid (stop - start) c.chunk_size start stop positive) tt))
