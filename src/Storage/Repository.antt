-- ===== src/Storage/Repository.antt =====
-- storage/repositories.py: an attempt's rows in the database, and the read-backs before a
-- publication. The database is a parameter: what it answers to an insertion, and what its tables
-- show of an attempt's rows, which may be less than was stored unless the read is consistent.
use rpc_state_indexer.Prelude.{ℕ, Bool, Option, List, [], ◌∷◌, Result, ok, err, ◌>>=◌}
use rpc_state_indexer.Prelude.Int.{ℤ}
use rpc_state_indexer.Prelude.Text.{Text, text}
use rpc_state_indexer.Json.{Json}
use rpc_state_indexer.Domain.{BlockRef, ExecutorKind, IntegrityMode, ObservationStatus}
use rpc_state_indexer.Anchors.{ResolvedAnchor}
use rpc_state_indexer.Evm.Bytes.{Bytes}
use rpc_state_indexer.Storage.Encoding.{DigestFault}
use rpc_state_indexer.Storage.Digests.{
  BalanceDigestRow, ScalarDigestRow, PoolBalanceDigestRow, PoolClStateDigestRow, PoolTickDigestRow,
  digest_universe, digest_token_observations, digest_pool_observations, digest_cl_observations,
}

pub record AttemptScope : Type 0 where
  pub chain_id : ℕ
  pub job_name : Text
  pub target_address : Text
  pub snapshot_date : ℕ
  pub attempt_id : Text

pub data Status : Type 0 where
  started verified failed : Status

pub data TargetKind : Type 0 where
  token pool : TargetKind

-- `census_attempts`. The value of `batches_json` is kept, not its text.
pub record AttemptRow : Type 0 where
  pub scope : AttemptScope
  pub target_kind : TargetKind
  pub status : Status
  pub integrity_mode : IntegrityMode
  pub config_hash : Text
  pub anchor_block : ℕ
  pub anchor_hash : Text
  pub executor_kind : ExecutorKind
  pub block_reference_kind : Text
  pub universe_hash : Text
  pub universe_size : ℕ
  pub batches_total : ℕ
  pub batches_verified : ℕ
  pub observations_ok : ℕ
  pub observations_failed : ℕ
  pub result_digest : Option Text
  pub batches_json : Option Json
  pub error_class : Text
  pub error_message : Text
  pub started_at : ℕ
  pub heartbeat_at : ℕ
  pub finished_at : Option ℕ

-- `census_universe_members`, `census_errors` and the tables of observations.
pub record MemberRow : Type 0 where
  pub scope : AttemptScope
  pub holder_address : Text
  pub member_sources : List Text
  pub member_ordinal : ℕ
  pub inserted_at : ℕ

pub record ErrorRow : Type 0 where
  pub scope : AttemptScope
  pub target_kind : TargetKind
  pub subject_address : Text
  pub call_kind : Text
  pub batch_sequence : ℕ
  pub error_class : ObservationStatus
  pub rpc_code : Option ℤ
  pub return_data : Text
  pub error_message : Text
  pub terminal_at : ℕ

-- An observation with what every observation is stored with.
pub record Stored (A : Type 0) : Type 0 where
  pub scope : AttemptScope
  pub observation : A
  pub probe_source : ExecutorKind
  pub batch_sequence : ℕ
  pub observed_at : ℕ

-- `census_publications`.
pub record PublicationRow : Type 0 where
  pub scope : AttemptScope
  pub target_kind : TargetKind
  pub publication_id : Text
  pub executor_kind : Text
  pub block_reference_kind : Text
  pub integrity_mode : IntegrityMode
  pub config_hash : Text
  pub anchor_block : ℕ
  pub anchor_hash : Text
  pub universe_hash : Text
  pub universe_size : ℕ
  pub result_digest : Text
  pub observed_sum_raw : Option ℕ
  pub reference_supply_raw : Option ℕ
  pub batches_total : ℕ
  pub observations_total : ℕ
  pub provider_groups : List Text
  pub checks_passed : List Text
  pub published_at : ℕ

-- `day_anchors`.
pub record AnchorRow : Type 0 where
  pub chain_id : ℕ
  pub resolution_id : Text
  pub resolved : ResolvedAnchor
  pub endpoint_fingerprint : Text
  pub resolved_at : ℕ

-- The insertions that the census makes, with the deduplication token's number.
pub data Write : Type 0 where
  insert_attempt_state : AttemptRow → Write
  insert_universe_members : List MemberRow → Write
  insert_token_balances : List (Stored BalanceDigestRow) → ℕ → Write
  insert_token_scalars : List (Stored ScalarDigestRow) → ℕ → Write
  insert_pool_balances : List (Stored PoolBalanceDigestRow) → ℕ → Write
  insert_pool_cl_state : Stored PoolClStateDigestRow → Text → Write
  insert_pool_ticks : List (Stored PoolTickDigestRow) → ℕ → Write
  insert_terminal_errors : List ErrorRow → Write
  append_publication : PublicationRow → Write
  insert_anchor : AnchorRow → Write

-- What the database has stored, the latest insertion first.
abbrev pub History : Type 0
History = List Write

-- What is raised: `ValueError`, `PublicationBlocked`, or what a collaborator raises, by the name
-- of its class and its message.
pub data CensusFault : Type 0 where
  value_error : Text → CensusFault
  publication_blocked : List Text → CensusFault
  raised : Text → Text → CensusFault

-- An insertion is stored, or raises; one that raises may have been stored all the same.
pub data Answer : Type 0 where
  stored : Answer
  refused stored_but_raised : CensusFault → Answer

-- The rows that a table shows of an attempt, in a read that is consistent or not.
abbrev pub Read : Type 0 → Type 0
Read A = AttemptScope → Bool → History → Result CensusFault A

pub record Database : Type 0 where
  pub answer : Write → History → Answer
  pub canonical_anchor : ℕ → ℕ → History → Result CensusFault (Option BlockRef)
  pub error_count : Read ℕ
  pub member_rows : Read (List (Text × List Text))
  pub balance_rows : Read (List BalanceDigestRow)
  pub scalar_rows : Read (List ScalarDigestRow)
  pub pool_rows : Read (List PoolBalanceDigestRow)
  pub state_rows : Read (List PoolClStateDigestRow)
  pub tick_rows : Read (List PoolTickDigestRow)
  pub sha256 : Bytes → Text

-- A `ValueError`, whose message the model leaves out.
abbrev pub digest_or_raise : Result DigestFault Text → Result CensusFault Text
digest_or_raise (ok digest) = ok digest
digest_or_raise (err fault) = err (value_error (text "digest"))

module _ (db : Database) where
  unfoldable pub readback_universe_digest : Read Text
  readback_universe_digest scope consistent h = do
    rows ← db.member_rows scope consistent h
    digest_or_raise (digest_universe db.sha256 rows)

  unfoldable pub readback_token_digest : Read Text
  readback_token_digest scope consistent h = do
    balances ← db.balance_rows scope consistent h
    scalars ← db.scalar_rows scope consistent h
    digest_or_raise (digest_token_observations db.sha256 balances scalars)

  unfoldable pub readback_pool_digest : Read Text
  readback_pool_digest scope consistent h = do
    rows ← db.pool_rows scope consistent h
    digest_or_raise (digest_pool_observations db.sha256 rows)

  abbrev pub first_state : List PoolClStateDigestRow → Result CensusFault PoolClStateDigestRow
  first_state [] = err (value_error (text "no persisted CL state"))
  first_state (state ∷ more) = ok state

  unfoldable pub readback_cl_digest : Read Text
  readback_cl_digest scope consistent h = do
    states ← db.state_rows scope consistent h
    state ← first_state states
    ticks ← db.tick_rows scope consistent h
    digest_or_raise (digest_cl_observations db.sha256 state ticks)
