-- ===== src/Discovery/Service/Advances.antt =====
-- Coverage under `DiscoveryService.advance`: it grows by what was scanned, and by nothing else.
use mathlib.Core.Path.{subst}
use rpc_state_indexer.Prelude.{
  ℕ, ◌+◌, ◌<◌, leb, Bool, true, List, [], ◌∷◌, ◌++◌, ◌≡◌, refl, sym, inl, inr, Result, ok, err,
  Option, none, some, arith, All, All-append, Bool-cases,
}
use rpc_state_indexer.Prelude.Text.{Text}
use rpc_state_indexer.Prelude.Exec
use rpc_state_indexer.Prelude.Exec.{Exec, pure, raise, lift, continue, bind-returns}
use rpc_state_indexer.Discovery.Coverage.{
  BlockRange, make, contains, covered, coverage_gaps, IsValid,
}
use rpc_state_indexer.Discovery.Coverage.Gaps.{covered-coverage_gaps, coverage_gaps-IsValid}
use rpc_state_indexer.Discovery.Service.{
  Rows, ServiceFault, EventConfig, DiscoveredToken, Service, State, completed_discovery_ranges,
  scan_gaps, topic_or_raise, advance_events, advance,
}
use rpc_state_indexer.Discovery.Service.Growth.{Grows, Grows-refl, Grows-trans, kept}
use rpc_state_indexer.Discovery.Service.Gaps.{scan_gaps-Growing, scan_gaps-covers}

-- The event's topic is known, and every required block is completed for it.
abbrev pub EventCovered :
    {S : Type 0} → Service S → DiscoveredToken → BlockRange → Rows → EventConfig → Type 0
EventCovered service target required h event =
    (topic0 : Text) × (service.validate_holder_topics event ≡ some topic0)
    × ((b : ℕ)
        → contains required b ≡ true
        → covered (completed_discovery_ranges target.address topic0 h) b ≡ true)

-- From the token's deployment to the anchor.
abbrev pub required_range : DiscoveredToken → ℕ → BlockRange
required_range target anchor_block = record {
  start = target.deployment_block;
  end_exclusive = anchor_block + 1;
}

-- Every completed range is a range.
abbrev pub RangesValid : Rows → Type 0
RangesValid h = (address topic0 : Text) → All IsValid (completed_discovery_ranges address topic0 h)

Grows-RangesValid :
    {limit : ℕ → Bool} {h k : Rows} → Grows limit h k → RangesValid h → RangesValid k
Grows-RangesValid {h = h} g valid a t =
    subst (All IsValid) {x = g.added a t ++ completed_discovery_ranges a t h} (sym (g.shape a t)) (
      All-append IsValid (g.added a t) (completed_discovery_ranges a t h) (g.valid a t) (valid a t))

module _ {S : Type 0} (service : Service S) (target : DiscoveredToken) (anchor_block : ℕ)
    (anchor_hash : Text) (required : BlockRange) (positive : 0 < service.settings.chunk_size) where
  within_required :
      (known : List BlockRange) (b : ℕ)
      → All IsValid known
      → covered (coverage_gaps required known) b ≡ true
      → contains required b ≡ true
  within_required known b valid e = ground (arith, covered-coverage_gaps required known b valid)

  abbrev Outcome : List EventConfig → State S → Result ServiceFault (Unit {0}) × State S → Type 0
  Outcome events st r =
      Grows (contains required) st.rows r.1.rows
      × (r.0 ≡ ok tt → All (EventCovered service target required r.1.rows) events)

  by_result :
      (event : EventConfig) (events : List EventConfig) (topic0 : Text) (st : State S)
      (r : Result ServiceFault (Unit {0}) × State S)
      → RangesValid st.rows
      → service.validate_holder_topics event ≡ some topic0
      → scan_gaps service target topic0 event anchor_block anchor_hash
          (coverage_gaps required (completed_discovery_ranges target.address topic0 st.rows))
          st
        ≡ r
      → Grows (contains required) st.rows r.1.rows
      → ((s : State S)
          → RangesValid s.rows
          → Outcome events s
              (advance_events service target anchor_block anchor_hash required events s))
      → Outcome
          (event ∷ events)
          st
          (continue r (λ u. advance_events service target anchor_block anchor_hash required events))
  by_result event events topic0 st (err fault, s1) valid known e grown ih =
      (grown, λ returned. absurd (cc returned))
  by_result event events topic0 st (ok u, s1) valid known e grown ih =
      let (later, covers) = ih s1 (Grows-RangesValid grown valid) in
      let all_grown = Grows-trans grown later in
      let done = completed_discovery_ranges target.address topic0 st.rows in
      let last = (advance_events service target anchor_block anchor_hash required events s1).1 in
      (
        all_grown,
        λ returned. (
          (
            topic0,
            known,
            λ b inside. elim (Bool-cases (covered done b)) [
              | inl before ↦ kept service last st all_grown target.address topic0 b before
              | inr open_block ↦ kept service last s1 later target.address topic0 b (
                  scan_gaps-covers service target topic0 event anchor_block anchor_hash
                    (coverage_gaps required done) st s1 positive
                    (coverage_gaps-IsValid required done) e b
                    (ground
                      (arith, covered-coverage_gaps required done b (valid target.address topic0))))
            ],
          ),
          covers returned,
        ),
      )

  after_gaps :
      (event : EventConfig) (events : List EventConfig) (topic0 : Text) (st : State S)
      (r : Result ServiceFault (Unit {0}) × State S)
      → RangesValid st.rows
      → service.validate_holder_topics event ≡ some topic0
      → scan_gaps service target topic0 event anchor_block anchor_hash
          (coverage_gaps required (completed_discovery_ranges target.address topic0 st.rows))
          st
        ≡ r
      → ((s : State S)
          → RangesValid s.rows
          → Outcome events s
              (advance_events service target anchor_block anchor_hash required events s))
      → Outcome
          (event ∷ events)
          st
          (continue r (λ u. advance_events service target anchor_block anchor_hash required events))
  after_gaps event events topic0 st r valid known e ih =
      let done = completed_discovery_ranges target.address topic0 st.rows in
      let gaps = coverage_gaps required done in
      let scanned =
        scan_gaps-Growing service target topic0 event anchor_block anchor_hash (contains required)
          gaps positive (coverage_gaps-IsValid required done)
          (λ b c. within_required done b (valid target.address topic0) c) in
      let grown : Grows (contains required) st.rows r.1.rows =
        subst (λ q. Grows (contains required) st.rows q.1.rows) e (scanned.at st) in
      by_result event events topic0 st r valid known e grown ih

  after_topic :
      (event : EventConfig) (events : List EventConfig) (st : State S) (o : Option Text)
      → RangesValid st.rows
      → service.validate_holder_topics event ≡ o
      → ((s : State S)
          → RangesValid s.rows
          → Outcome events s
              (advance_events service target anchor_block anchor_hash required events s))
      → Outcome (event ∷ events) st (
          continue
            (topic_or_raise service o, st)
            (λ topic0 s.
              continue
                (scan_gaps service target topic0 event anchor_block anchor_hash
                  (coverage_gaps required (completed_discovery_ranges target.address topic0 s.rows))
                  s)
                (λ u. advance_events service target anchor_block anchor_hash required events)))
  after_topic event events st none valid known ih =
      (Grows-refl (contains required) st.rows, λ returned. absurd (cc returned))
  after_topic event events st (some topic0) valid known ih =
      after_gaps event events topic0 st _ valid known refl ih

  advance_events-Outcome :
      (events : List EventConfig) (st : State S)
      → RangesValid st.rows
      → Outcome events st
          (advance_events service target anchor_block anchor_hash required events st)
  unfolding advance_events pure lift Exec.◌>>=◌
  advance_events-Outcome [] st valid = (Grows-refl (contains required) st.rows, λ returned. tt)
  advance_events-Outcome (event ∷ events) st valid =
      after_topic event events st (service.validate_holder_topics event) valid refl
        (λ s v. advance_events-Outcome events s v)

module _ {S : Type 0} (service : Service S) (target : DiscoveredToken) (anchor_block : ℕ)
    (anchor_hash : Text) (st : State S) where
  -- Advancing a token's discovery to a block, whatever the provider answers and whichever insertions
  -- the database refuses, completes no block outside the range from the token's deployment to that
  -- block, and keeps what was completed. Where it returns, every event of the token has its topic
  -- and every block of that range is completed for it.
  pub advance-Advances :
      0 < service.settings.chunk_size
      → RangesValid st.rows
      → let (result, after) = advance service target anchor_block anchor_hash st in
        Grows (contains (required_range target anchor_block)) st.rows after.rows
        × (result ≡ ok tt
            → All
                (EventCovered service target (required_range target anchor_block) after.rows)
                target.discovery_events)
  unfolding advance Exec.◌>>=◌ lift make
  advance-Advances positive valid =
      elim (Bool-cases (leb (anchor_block + 1) target.deployment_block)) [
        | inl empty ↦ rw empty (Grows-refl _ st.rows, λ returned. absurd (cc returned))
        | inr some_blocks ↦ rw some_blocks (
            advance_events-Outcome service target anchor_block anchor_hash
              (required_range target anchor_block) positive target.discovery_events st valid)
      ]
