-- ===== src/Discovery/Service/Gaps.antt =====
-- The scans of gaps in core/discovery_service.py complete the gaps, and nothing else.
use mathlib.Core.Path.{subst}
use rpc_state_indexer.Prelude.{
  ℕ, ◌<◌, Bool, true, ◌&&◌, List, [], ◌∷◌, ◌++◌, ◌≡◌, refl, sym, ap, ◌∙◌, inl, inr, Result, ok, err,
  arith, All, Bool-cases, if◌then◌else◌, length,
}
use rpc_state_indexer.Prelude.Text.{Text, text_eq, text_eq_refl}
use rpc_state_indexer.Prelude.Exec.{pure, raise, lift, bind-returns}
use rpc_state_indexer.Json.{str}
use rpc_state_indexer.Discovery.Coverage.{BlockRange, contains, covered, IsValid}
use rpc_state_indexer.Discovery.Fault.{DiscoveryError}
use rpc_state_indexer.Discovery.Log.{NormalizedLog}
use rpc_state_indexer.Discovery.Scanner.{CompletedRange, DiscoveryScan, ranges_of}
use rpc_state_indexer.Discovery.Service.{
  RangeRow, HolderRow, StoreWrite, insert_discovery_ranges, Rows, scan_failed, EventConfig,
  DiscoveredToken, Service, State, completed_rows, completed_discovery_ranges, write, completed_row,
  range_rows, holder_rows, write_holders, record_scan, after_scan, scan_gap, scan_gaps,
}
use rpc_state_indexer.Discovery.Service.Growth.{
  Grows, covered-append, Grows-wider, returned, ScanCovers, scan_Covers, wrote, kept, raised_not_ok,
  Growing, Growing-pure, Growing-raise, Growing-lift, Growing-read, Growing-bind, Growing-write,
}

module _ {S : Type 0} (service : Service S) where
  module _ (target : DiscoveredToken) (topic0 : Text) (event : EventConfig) (anchor_block : ℕ)
      (anchor_hash : Text) where
    -- The ranges count for their own token and event.
    abbrev for_event : List BlockRange → Text → Text → List BlockRange
    for_event ranges address topic =
        if text_eq target.address address && text_eq topic0 topic then ranges else []

    for_event_self : (ranges : List BlockRange) → for_event ranges target.address topic0 ≡ ranges
    for_event_self ranges = rw (text_eq_refl target.address, text_eq_refl topic0) refl

    for_event-IsValid :
        (ranges : List BlockRange) (a t : Text)
        → All IsValid ranges
        → All IsValid (for_event ranges a t)
    for_event-IsValid ranges a t valid =
        elim (Bool-cases (text_eq target.address a && text_eq topic0 t)) [
          | inl own ↦ rw own valid
          | inr foreign ↦ rw foreign tt
        ]

    for_event_within :
        (ranges : List BlockRange) (a t : Text) (b : ℕ)
        → covered (for_event ranges a t) b ≡ true
        → covered ranges b ≡ true
    for_event_within ranges a t b e =
        elim (Bool-cases (text_eq target.address a && text_eq topic0 t)) [
          | inl own ↦ rw own at e
          | inr foreign ↦ absurd (cc (rw foreign at e))
        ]

    for_event_nil : (a t : Text) → [] ≡ for_event [] a t
    for_event_nil a t = ground arith

    rows_cons :
        (a t : Text) (c : CompletedRange) (n : ℕ) (id : Text) (started finished : ℕ)
        (rest : List RangeRow) (ranges : List BlockRange)
        → completed_rows a t rest ≡ for_event ranges a t
        → completed_rows a t (
            completed_row service target topic0 event anchor_block anchor_hash c n id started
              finished
            ∷ rest)
          ≡ for_event (c.block_range ∷ ranges) a t
    rows_cons a t c n id started finished rest ranges e =
        elim (Bool-cases (text_eq target.address a && text_eq topic0 t)) [
          | inl own ↦ rw own (rw own at (ap (λ rs. c.block_range ∷ rs) e))
          | inr foreign ↦ rw foreign (rw foreign at e)
        ]

    range_rows_lem :
        (id : Text) (started finished : ℕ) (logs : List NormalizedLog) (cs : List CompletedRange)
        (st : State S) {st' : State S} {rows : List RangeRow}
        → range_rows service target topic0 event anchor_block anchor_hash id started finished logs
            cs st
          ≡ (ok rows, st')
        → (a t : Text) → completed_rows a t rows ≡ for_event (ranges_of cs) a t
    unfolding range_rows pure
    range_rows_lem id started finished logs [] st {rows = rows} e a t =
        let none_left : rows ≡ [] = cc in ap (completed_rows a t) none_left ∙ for_event_nil a t
    range_rows_lem id started finished logs (c ∷ cs) st {rows = rows} e a t =
        let (found, s1, e1, f1) = bind-returns (lift _) _ e in
        let (rest, s2, e2, f2) =
          bind-returns
            (range_rows service target topic0 event anchor_block anchor_hash id started finished
              logs cs)
            _ f1 in
        let shape : rows
            ≡ completed_row service target topic0 event anchor_block anchor_hash c (length found) id
                started finished
              ∷ rest =
          cc in
        ap (completed_rows a t) shape
        ∙ rows_cons a t c (length found) id started finished rest (ranges_of cs)
            (range_rows_lem id started finished logs cs s1 e2 a t)

    module _ (limit : ℕ → Bool) where
      range_rows-Growing :
          (id : Text) (started finished : ℕ) (logs : List NormalizedLog) (cs : List CompletedRange)
          → Growing service limit (
              range_rows service target topic0 event anchor_block anchor_hash id started finished
                logs cs)
      unfolding range_rows
      range_rows-Growing id started finished logs [] = Growing-pure service limit []
      range_rows-Growing id started finished logs (c ∷ cs) =
          Growing-bind service limit _ _ (Growing-lift service limit _) λ found st e.
            Growing-bind service limit _ _ (range_rows-Growing id started finished logs cs)
              λ rest st' e'. Growing-pure service limit _

      holder_rows-Growing :
          (logs : List NormalizedLog) (rows : List HolderRow)
          → Growing service limit
              (holder_rows service target topic0 event anchor_block anchor_hash logs rows)
      unfolding holder_rows
      holder_rows-Growing [] rows = Growing-pure service limit rows
      holder_rows-Growing (log ∷ logs) rows =
          Growing-bind service limit _ _ (Growing-lift service limit _)
            λ found st e. holder_rows-Growing logs _

      nothing_added :
          (w : StoreWrite)
          → ((a t : Text) (h : Rows)
              → completed_discovery_ranges a t (w ∷ h) ≡ completed_discovery_ranges a t h)
          → Growing service limit (write service w)
      nothing_added w shape =
          Growing-write service limit w (λ a t. []) shape (λ a t. tt) (λ a t b e. absurd (cc e))

      write_holders-Growing :
          (rows : List HolderRow)
          → Growing service limit
              (write_holders service target topic0 event anchor_block anchor_hash rows)
      write_holders-Growing [] = Growing-pure service limit tt
      write_holders-Growing (row ∷ rows) = nothing_added _ (λ a t h. refl)

    ranges_Growing :
        (gap : BlockRange) (ranges : List BlockRange) (rows : List RangeRow)
        → All IsValid ranges
        → ((b : ℕ) → covered ranges b ≡ contains gap b)
        → ((a t : Text) → completed_rows a t rows ≡ for_event ranges a t)
        → Growing service (contains gap) (write service (insert_discovery_ranges rows))
    ranges_Growing gap ranges rows valid covers same =
        Growing-write service (contains gap) _ (for_event ranges)
          (λ a t h. ap (λ rs. rs ++ completed_discovery_ranges a t h) (same a t))
          (λ a t. for_event-IsValid ranges a t valid)
          (λ a t b e. sym (covers b) ∙ for_event_within ranges a t b e)

    record_scan-Growing :
        (gap : BlockRange) (id : Text) (started : ℕ) (found : DiscoveryScan)
        → All IsValid (ranges_of found.completed_ranges)
        → ((b : ℕ) → covered (ranges_of found.completed_ranges) b ≡ contains gap b)
        → Growing service
            (contains gap)
            (record_scan service target topic0 event anchor_block anchor_hash id started found)
    unfolding record_scan
    record_scan-Growing gap id started found valid covers =
        Growing-bind service _ _ _ (Growing-read service _ _) λ finished s0 e0.
          Growing-bind service _ _ _
            (range_rows-Growing _ id started finished found.logs found.completed_ranges)
            λ rows s1 e1.
              Growing-bind service _ _ _ (holder_rows-Growing _ found.logs []) λ observed s2 e2.
                Growing-bind service _ _ _ (write_holders-Growing _ observed) λ u s3 e3.
                  ranges_Growing gap (ranges_of found.completed_ranges) rows valid covers (
                    range_rows_lem id started finished found.logs found.completed_ranges s1
                      (returned _ e1))

    -- A scan of a gap, returned or raised, completes no block outside it.
    after_scan-Grows :
        (gap : BlockRange) (h : Rows) (r : Result DiscoveryError DiscoveryScan × S)
        → ScanCovers service gap r.0
        → Grows
            (contains gap)
            h
            (after_scan service target topic0 event anchor_block anchor_hash gap h r).1.rows
    after_scan-Grows gap h (ok found, net) covers =
        (record_scan-Growing gap (service.uuid4 h) (service.now h) found covers.0 covers.1).at
          (record { net = net; rows = h })
    after_scan-Grows gap h (err fault, net) covers =
        (Growing-bind service (contains gap) _ _ (nothing_added _ _ (λ a t k. refl))
            λ u st e. Growing-raise service (contains gap) _).at
          (record { net = net; rows = h })

    scan_gap-Growing :
        (gap : BlockRange)
        → 0 < service.settings.chunk_size
        → IsValid gap
        → Growing service
            (contains gap)
            (scan_gap service target topic0 event anchor_block anchor_hash gap)
    unfolding scan_gap
    scan_gap-Growing gap positive valid = record {
      at = λ st.
          after_scan-Grows gap st.rows _
            (scan_Covers service gap target.address (str topic0) st.net positive valid);
    }

    -- After a scan that returns, the gap is covered.
    record_scan-covers :
        (gap : BlockRange) (id : Text) (started : ℕ) (found : DiscoveryScan) (st st' : State S)
        → ((b : ℕ) → covered (ranges_of found.completed_ranges) b ≡ contains gap b)
        → record_scan service target topic0 event anchor_block anchor_hash id started found st
          ≡ (ok tt, st')
        → (b : ℕ) → contains gap b ≡ true
        → covered (completed_discovery_ranges target.address topic0 st'.rows) b ≡ true
    unfolding record_scan
    record_scan-covers gap id started found st st' covers e b inside =
        let (finished, s0, e0, f0) =
          bind-returns (λ (s : State S). (ok (service.now s.rows), s)) _ e in
        let (rows, s1, e1, f1) =
          bind-returns
            (range_rows service target topic0 event anchor_block anchor_hash id started finished
              found.logs found.completed_ranges)
            _ f0 in
        let (observed, s2, e2, f2) =
          bind-returns
            (holder_rows service target topic0 event anchor_block anchor_hash found.logs []) _ f1 in
        let (u, s3, e3, f3) =
          bind-returns (write_holders service target topic0 event anchor_block anchor_hash observed)
            _ f2 in
        let stored = wrote service (insert_discovery_ranges rows) s3 f3 in
        let own =
          range_rows_lem id started finished found.logs found.completed_ranges s0 e1 target.address
            topic0
          ∙ for_event_self (ranges_of found.completed_ranges) in
        ap (λ h. covered (completed_discovery_ranges target.address topic0 h) b) stored
        ∙ covered-append (completed_rows target.address topic0 rows) _ b
        ∙ ground (arith, covers b, ap (λ rs. covered rs b) own)

    after_scan-covers :
        (gap : BlockRange) (h : Rows) (r : Result DiscoveryError DiscoveryScan × S) (st' : State S)
        → ScanCovers service gap r.0
        → after_scan service target topic0 event anchor_block anchor_hash gap h r ≡ (ok tt, st')
        → (b : ℕ) → contains gap b ≡ true
        → covered (completed_discovery_ranges target.address topic0 st'.rows) b ≡ true
    after_scan-covers gap h (ok found, net) st' covers e =
        record_scan-covers gap (service.uuid4 h) (service.now h) found
          (record { net = net; rows = h }) st' covers.1 e
    after_scan-covers gap h (err fault, net) st' covers e =
        let (u, s1, e1, f1) =
          bind-returns (write service _) (λ t. raise (scan_failed fault))
            {s = record { net = net; rows = h }} e in
        absurd (raised_not_ok service (scan_failed fault) s1 f1)

    scan_gap-covers :
        (gap : BlockRange) (st st' : State S)
        → 0 < service.settings.chunk_size
        → IsValid gap
        → scan_gap service target topic0 event anchor_block anchor_hash gap st ≡ (ok tt, st')
        → (b : ℕ) → contains gap b ≡ true
        → covered (completed_discovery_ranges target.address topic0 st'.rows) b ≡ true
    unfolding scan_gap
    scan_gap-covers gap st st' positive valid e =
        after_scan-covers gap st.rows _ st'
          (scan_Covers service gap target.address (str topic0) st.net positive valid) e

    pub scan_gaps-Growing :
        (limit : ℕ → Bool) (gaps : List BlockRange)
        → 0 < service.settings.chunk_size
        → All IsValid gaps
        → ((b : ℕ) → covered gaps b ≡ true → limit b ≡ true)
        → Growing service limit
            (scan_gaps service target topic0 event anchor_block anchor_hash gaps)
    unfolding scan_gaps
    scan_gaps-Growing limit [] positive valid within = Growing-pure service limit tt
    scan_gaps-Growing limit (gap ∷ gaps) positive valid within =
        Growing-bind service limit _ _
          (record {
            at = λ st.
                Grows-wider (λ b e. within b (ground arith))
                  ((scan_gap-Growing gap positive valid.0).at st);
          })
          λ u st e. scan_gaps-Growing limit gaps positive valid.1 (λ b c. within b (ground arith))

    pub scan_gaps-covers :
        (gaps : List BlockRange) (st st' : State S)
        → 0 < service.settings.chunk_size
        → All IsValid gaps
        → scan_gaps service target topic0 event anchor_block anchor_hash gaps st ≡ (ok tt, st')
        → (b : ℕ) → covered gaps b ≡ true
        → covered (completed_discovery_ranges target.address topic0 st'.rows) b ≡ true
    unfolding scan_gaps
    scan_gaps-covers [] st st' positive valid e b inside = absurd (cc inside)
    scan_gaps-covers (gap ∷ gaps) st st' positive valid e b inside =
        let (u, s1, e1, f1) =
          bind-returns (scan_gap service target topic0 event anchor_block anchor_hash gap) _ e in
        elim (Bool-cases (contains gap b)) [
          | inl here ↦
              kept service st' s1
                (subst (λ k. Grows (λ c. true) s1.rows k.1.rows) f1
                  ((scan_gaps-Growing (λ c. true) gaps positive valid.1 (λ c h. refl)).at s1))
                target.address topic0 b (scan_gap-covers gap st s1 positive valid.0 e1 b here)
          | inr later ↦ scan_gaps-covers gaps s1 st' positive valid.1 f1 b (ground arith)
        ]
