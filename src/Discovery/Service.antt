-- ===== src/Discovery/Service.antt =====
-- `DiscoveryService` of core/discovery_service.py: the gaps of an event's coverage are scanned, and
-- the rows of each scan are stored, what was found before what is covered.
pub mod Growth
pub mod Gaps
pub mod Advances
mod Tests
use rpc_state_indexer.Prelude.{
  ℕ, suc, ◌+◌, min, max, Bool, true, false, ◌&&◌, Option, none, some, List, [], ◌∷◌, ◌++◌, Result,
  ok, err, length, take, replicate, if◌then◌else◌,
}
use rpc_state_indexer.Prelude.Text.{Text, text, text_eq}
use rpc_state_indexer.Prelude.Exec.{Exec, pure, raise, lift, ◌>>=◌, ◌>>◌}
use rpc_state_indexer.Json.{Json, str}
use rpc_state_indexer.Discovery.Coverage.{BlockRange, RangeError, make, contains, coverage_gaps}
use rpc_state_indexer.Discovery.Fault.{DiscoveryError}
use rpc_state_indexer.Discovery.Log.{NormalizedLog, holders}
use rpc_state_indexer.Discovery.Dedup.{text_leb}
use rpc_state_indexer.Discovery.Holders.{extract_holders}
use rpc_state_indexer.Discovery.Scanner.{CallFault, CompletedRange, DiscoveryScan, Settings, scan}

pub data RangeStatus : Type 0 where
  completed failed : RangeStatus

-- `discovery_ranges`, of the service's chain.
pub record RangeRow : Type 0 where
  pub token_address : Text
  pub topic0 : Text
  pub block_range : BlockRange
  pub scan_id : Text
  pub status : RangeStatus
  pub anchor_block : ℕ
  pub anchor_hash : Text
  pub log_count : ℕ
  pub holder_count : ℕ
  pub attempt_count : ℕ
  pub endpoint_fingerprint : Text
  pub error_class : Text
  pub error_message : Text
  pub started_at : ℕ
  pub heartbeat_at : ℕ
  pub finished_at : ℕ

-- `holder_universe`.
pub record HolderRow : Type 0 where
  pub token_address : Text
  pub holder_address : Text
  pub source : Text
  pub source_detail : Text
  pub first_seen_block : ℕ
  pub last_seen_block : ℕ
  pub observations : ℕ

pub data StoreWrite : Type 0 where
  insert_discovery_ranges : List RangeRow → StoreWrite
  insert_holder_observations : List HolderRow → StoreWrite

-- What is stored, the latest insertion first.
abbrev pub Rows : Type 0
Rows = List StoreWrite

pub data ServiceFault : Type 0 where
  scan_failed : DiscoveryError → ServiceFault
  store_failed bad_event empty_requirement : ServiceFault

pub record EventConfig : Type 0 where
  pub abi : Text
  pub event : Text
  pub holder_topics : List ℕ

pub record DiscoveredToken : Type 0 where
  pub address : Text
  pub deployment_block : ℕ
  pub discovery_events : List EventConfig
  pub zero_is_holder : Bool

-- What the service is built with: the registry of ABIs gives an event's topic or raises, the
-- database stores an insertion or raises, and an exception has a class and a text.
pub record Service (S : Type 0) : Type 0 where
  pub settings : Settings
  pub call : Json → ℕ → S → Result CallFault (Json × Text) × S
  pub validate_holder_topics : EventConfig → Option Text
  pub accepts : StoreWrite → Rows → Bool
  pub now : Rows → ℕ
  pub uuid4 : Rows → Text
  pub class_name : DiscoveryError → Text
  pub detail : DiscoveryError → Text

-- The provider's state and the rows.
pub record State (S : Type 0) : Type 0 where
  pub net : S
  pub rows : Rows

abbrev pub is_completed : RangeStatus → Bool
is_completed completed = true
is_completed failed = false

abbrev pub completed_rows : Text → Text → List RangeRow → List BlockRange
completed_rows address topic0 [] = []
completed_rows address topic0 (row ∷ rows) =
    let rest = completed_rows address topic0 rows in
    if is_completed row.status && (text_eq row.token_address address && text_eq row.topic0 topic0)
    then row.block_range ∷ rest
    else rest

-- `completed_discovery_ranges` of storage/repositories.py. The query sorts; the gaps do not depend
-- on the order.
abbrev pub completed_discovery_ranges : Text → Text → Rows → List BlockRange
completed_discovery_ranges address topic0 [] = []
completed_discovery_ranges address topic0 (insert_discovery_ranges rows ∷ h) =
    completed_rows address topic0 rows ++ completed_discovery_ranges address topic0 h
completed_discovery_ranges address topic0 (insert_holder_observations rows ∷ h) =
    completed_discovery_ranges address topic0 h

-- The logs of a completed range.
abbrev pub logs_in : BlockRange → List NormalizedLog → List NormalizedLog
logs_in range [] = []
logs_in range (log ∷ logs) =
    let rest = logs_in range logs in if contains range log.block_number then log ∷ rest else rest

abbrev pub row_of : Text → Text → ℕ → HolderRow
row_of detail holder block = record {
  token_address = [];
  holder_address = holder;
  source = text "own_scan";
  source_detail = detail;
  first_seen_block = block;
  last_seen_block = block;
  observations = 1;
}

-- One observation of a holder: the rows stay sorted by the holder's address.
unfoldable pub observe : HolderRow → List HolderRow → List HolderRow
observe row [] = row ∷ []
observe row (r ∷ rows) =
    let later = observe row rows in
    if text_eq row.holder_address r.holder_address
    then record r {
      first_seen_block = min r.first_seen_block row.first_seen_block;
      last_seen_block = max r.last_seen_block row.last_seen_block;
      observations = r.observations + 1;
    }
      ∷ rows
    else if text_leb row.holder_address r.holder_address
    then row ∷ r ∷ rows
    else r ∷ later

abbrev pub observe_all : (Text → HolderRow) → List Text → List HolderRow → List HolderRow
observe_all row_for [] rows = rows
observe_all row_for (holder ∷ found) rows =
    observe_all row_for found (observe (row_for holder) rows)

module _ {S : Type 0} (service : Service S) where
  abbrev pub Method : Type 0 → Type 0
  Method A = Exec (State S) ServiceFault A

  unfoldable pub write : StoreWrite → Method (Unit {0})
  write w st =
      if service.accepts w st.rows
      then (ok tt, record st { rows = w ∷ st.rows })
      else (err store_failed, st)

  abbrev pub scan_result : {A : Type 0} → Result DiscoveryError A → Result ServiceFault A
  scan_result (ok a) = ok a
  scan_result (err fault) = err (scan_failed fault)

  module _ (target : DiscoveredToken) (topic0 : Text) (event : EventConfig) (anchor_block : ℕ)
      (anchor_hash : Text) where
    abbrev pub failed_row : BlockRange → Text → ℕ → ℕ → DiscoveryError → RangeRow
    failed_row gap scan_id started_at failed_at fault = record {
      token_address = target.address;
      topic0 = topic0;
      block_range = gap;
      scan_id = scan_id;
      status = failed;
      anchor_block = anchor_block;
      anchor_hash = anchor_hash;
      log_count = 0;
      holder_count = 0;
      attempt_count = 1;
      endpoint_fingerprint = replicate 64 b'0';
      error_class = service.class_name fault;
      error_message = take 4096 (service.detail fault);
      started_at = started_at;
      heartbeat_at = failed_at;
      finished_at = failed_at;
    }

    abbrev pub completed_row : CompletedRange → ℕ → Text → ℕ → ℕ → RangeRow
    completed_row c holder_count scan_id started_at finished_at = record {
      token_address = target.address;
      topic0 = topic0;
      block_range = c.block_range;
      scan_id = scan_id;
      status = completed;
      anchor_block = anchor_block;
      anchor_hash = anchor_hash;
      log_count = c.log_count;
      holder_count = holder_count;
      attempt_count = 1;
      endpoint_fingerprint = c.endpoint_fingerprint;
      error_class = [];
      error_message = [];
      started_at = started_at;
      heartbeat_at = finished_at;
      finished_at = finished_at;
    }

    -- The rows of the completed ranges, each with the number of its holders.
    unfoldable pub range_rows :
        Text → ℕ → ℕ → List NormalizedLog → List CompletedRange → Method (List RangeRow)
    range_rows scan_id started_at finished_at logs [] = pure []
    range_rows scan_id started_at finished_at logs (c ∷ cs) = do
      found ← lift (
          scan_result (
            extract_holders (logs_in c.block_range logs) event.holder_topics target.zero_is_holder))
      rest ← range_rows scan_id started_at finished_at logs cs
      pure (completed_row c (length found) scan_id started_at finished_at ∷ rest)

    abbrev pub holder_row : ℕ → Text → HolderRow
    holder_row block holder = record (row_of event.event holder block) {
      token_address = target.address;
    }

    -- The loop over the logs that collects the observations.
    unfoldable pub holder_rows : List NormalizedLog → List HolderRow → Method (List HolderRow)
    holder_rows [] rows = pure rows
    holder_rows (log ∷ logs) rows = do
      found ← lift (scan_result (holders log target.zero_is_holder event.holder_topics))
      holder_rows logs (observe_all (holder_row log.block_number) found rows)

    abbrev pub write_holders : List HolderRow → Method (Unit {0})
    write_holders [] = pure tt
    write_holders (row ∷ rows) = write (insert_holder_observations (row ∷ rows))

    -- What follows the scan's `try`: observations go before the markers of coverage.
    unfoldable pub record_scan : Text → ℕ → DiscoveryScan → Method (Unit {0})
    record_scan scan_id started_at found = do
      finished_at ← λ st. (ok (service.now st.rows), st)
      ranges ← range_rows scan_id started_at finished_at found.logs found.completed_ranges
      observed ← holder_rows found.logs []
      write_holders observed
      write (insert_discovery_ranges ranges)

    -- The `except` clause and the rest.
    abbrev pub after_scan :
        BlockRange
        → Rows
        → Result DiscoveryError DiscoveryScan × S
        → Result ServiceFault (Unit {0}) × State S
    after_scan gap h (ok found, net) =
        record_scan (service.uuid4 h) (service.now h) found (record { net = net; rows = h })
    after_scan gap h (err fault, net) =
        (write (
              insert_discovery_ranges
                (failed_row gap (service.uuid4 h) (service.now h) (service.now h) fault ∷ []))
            >> raise (scan_failed fault))
          (record { net = net; rows = h })

    unfoldable pub scan_gap : BlockRange → Method (Unit {0})
    scan_gap gap st = after_scan gap st.rows (
        scan service.call service.settings target.address (str topic0) gap.start gap.end_exclusive
          st.net)

    unfoldable pub scan_gaps : List BlockRange → Method (Unit {0})
    scan_gaps [] = pure tt
    scan_gaps (gap ∷ gaps) = scan_gap gap >> scan_gaps gaps

  abbrev pub topic_or_raise : Option Text → Result ServiceFault Text
  topic_or_raise none = err bad_event
  topic_or_raise (some topic0) = ok topic0

  -- The loop over the events.
  unfoldable pub advance_events :
      DiscoveredToken → ℕ → Text → BlockRange → List EventConfig → Method (Unit {0})
  advance_events target anchor_block anchor_hash required [] = pure tt
  advance_events target anchor_block anchor_hash required (event ∷ events) = do
    topic0 ← lift (topic_or_raise (service.validate_holder_topics event))
    known ← λ st. (ok (completed_discovery_ranges target.address topic0 st.rows), st)
    scan_gaps target topic0 event anchor_block anchor_hash (coverage_gaps required known)
    advance_events target anchor_block anchor_hash required events

  abbrev pub range_or_raise : Result RangeError BlockRange → Result ServiceFault BlockRange
  range_or_raise (ok range) = ok range
  range_or_raise (err fault) = err empty_requirement

  unfoldable pub advance : DiscoveredToken → ℕ → Text → Method (Unit {0})
  advance target anchor_block anchor_hash = do
    required ← lift (range_or_raise (make target.deployment_block (anchor_block + 1)))
    advance_events target anchor_block anchor_hash required target.discovery_events
