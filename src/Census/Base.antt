-- ===== src/Census/Base.antt =====
-- collectors/models.py and the values of core/census.py: jobs and targets as far as the
-- census and its collectors read them, what a collector returns, and the insertions.
use rpc_state_indexer.Prelude.{
  ℕ, Bool, true, false, ◌&&◌, Option, List, [], ◌∷◌, ◌++◌, Result, ok, err, leb, all, map,
  if◌then◌else◌,
}
use rpc_state_indexer.Prelude.Int.{ℤ}
use rpc_state_indexer.Prelude.Text.{Text, text}
use rpc_state_indexer.Prelude.Exec.{Exec}
use rpc_state_indexer.Domain.{
  BlockRef, ExecutorKind, multicall3, legacy_rpc_batch, IntegrityMode, ObservationStatus,
  BalanceRow, ScalarRow, PoolBalanceRow, PoolClStateRow, PoolTickRow, FrozenUniverse,
  IntegrityResult,
}
use rpc_state_indexer.Evm.Bytes.{Bytes}
use rpc_state_indexer.Execution.Base.{VerificationEvidence}
use rpc_state_indexer.Storage.Digests.{
  BalanceDigestRow, ScalarDigestRow, PoolBalanceDigestRow, PoolClStateDigestRow, PoolTickDigestRow,
  digest_token_observations, digest_pool_observations, digest_cl_observations,
}
use rpc_state_indexer.Storage.Repository.{
  Write, History, CensusFault, value_error, publication_blocked, raised, Answer, stored, refused,
  stored_but_raised, Database, digest_or_raise,
}

pub record JobConfig : Type 0 where
  pub name : Text
  pub universe : Option Text
  pub integrity_mode : IntegrityMode

pub record TokenConfig : Type 0 where
  pub address : Text
  pub is_atoken : Bool
  pub date_start : Option ℕ
  pub date_end : Option ℕ
  pub index_source : Option Text

pub record PoolConfig : Type 0 where
  pub address : Text
  pub deployment_block : ℕ
  pub pool_class : Text
  pub is_balancer : Bool
  pub date_start : Option ℕ
  pub date_end : Option ℕ
  pub assets : List Text

-- `catalog.chain` with its `multicall3`, and `target_config_hash`.
pub record Catalog : Type 0 where
  pub chain_id : ℕ
  pub multicall_address : Text
  pub multicall_deployment_block : ℕ
  pub multicall_runtime_code_hash : Option Text
  pub target_config_hash : Text → Text → Text

pub record CollectionBatchEvidence : Type 0 where
  pub batch_sequence : ℕ
  pub body_call_count : ℕ
  pub evidence : VerificationEvidence

pub record CollectionError : Type 0 where
  pub subject_address : Text
  pub call_kind : Text
  pub status : ObservationStatus
  pub batch_sequence : ℕ
  pub message : Text
  pub rpc_code : Option ℤ
  pub return_data : Bytes

-- The fields that the three classes of results share.
pub record Collected : Type 0 where
  pub errors : List CollectionError
  pub batches : List CollectionBatchEvidence
  pub integrity_checks : List IntegrityResult

pub record TokenCollectionResult : Type 0 where
  pub balances : List BalanceRow
  pub scalars : List ScalarRow
  pub collected : Collected

pub record PoolCollectionResult : Type 0 where
  pub pool_address : Text
  pub integrity_mode : IntegrityMode
  pub expected_calls : ℕ
  pub balances : List PoolBalanceRow
  pub collected : Collected

pub record PoolClCollectionResult : Type 0 where
  pub state : PoolClStateRow
  pub ticks : List PoolTickRow
  pub collected : Collected

abbrev pub no_errors : List CollectionError → Bool
no_errors [] = true
no_errors (e ∷ es) = false

abbrev pub batch_verified : CollectionBatchEvidence → Bool
batch_verified b = b.evidence.verified

abbrev pub check_passed : IntegrityResult → Bool
check_passed c = c.passed

-- The property `verified`.
unfoldable pub is_verified : Collected → Bool
is_verified c =
    no_errors c.errors && all batch_verified c.batches && all check_passed c.integrity_checks

abbrev pub balance_digest_row : BalanceRow → BalanceDigestRow
balance_digest_row row = record {
  holder_address = row.holder_address;
  balance_raw = row.balance_raw;
  scaled_balance_raw = row.scaled_balance_raw;
  value_kind = row.value_kind;
}

abbrev pub scalar_digest_row : ScalarRow → ScalarDigestRow
scalar_digest_row row = record { scalar_name = row.scalar_name; scalar_raw = row.scalar_raw }

abbrev pub pool_digest_row : PoolBalanceRow → PoolBalanceDigestRow
pool_digest_row row = record {
  pool_address = row.pool_address;
  token_address = row.token_address;
  balance_raw = row.balance_raw;
}

abbrev pub state_digest_row : PoolClStateRow → PoolClStateDigestRow
state_digest_row row = record {
  pool_address = row.pool_address;
  sqrt_price_x96 = row.sqrt_price_x96;
  current_tick = row.current_tick;
  liquidity = row.liquidity;
  fee_growth_global_0_x128 = row.fee_growth_global_0_x128;
  fee_growth_global_1_x128 = row.fee_growth_global_1_x128;
  tick_spacing = row.tick_spacing;
  fee = row.fee;
  tick_count = row.tick_count;
}

abbrev pub tick_digest_row : PoolTickRow → PoolTickDigestRow
tick_digest_row row = record {
  pool_address = row.pool_address;
  tick = row.tick;
  liquidity_gross = row.liquidity_gross;
  liquidity_net = row.liquidity_net;
  fee_growth_outside_0_x128 = row.fee_growth_outside_0_x128;
  fee_growth_outside_1_x128 = row.fee_growth_outside_1_x128;
}

-- The property `result_digest` of each class.
unfoldable pub token_digest : (Bytes → Text) → TokenCollectionResult → Result CensusFault Text
token_digest sha256 r = digest_or_raise (
    digest_token_observations sha256 (map balance_digest_row r.balances)
      (map scalar_digest_row r.scalars))

unfoldable pub pool_digest : (Bytes → Text) → PoolCollectionResult → Result CensusFault Text
pool_digest sha256 r =
    digest_or_raise (digest_pool_observations sha256 (map pool_digest_row r.balances))

unfoldable pub cl_digest : (Bytes → Text) → PoolClCollectionResult → Result CensusFault Text
cl_digest sha256 r =
    digest_or_raise
      (digest_cl_observations sha256 (state_digest_row r.state) (map tick_digest_row r.ticks))

-- `type(exc).__name__` and `str(exc)`.
unfoldable pub error_class : CensusFault → Text
error_class (value_error message) = text "ValueError"
error_class (publication_blocked checks) = text "PublicationBlocked"
error_class (raised name message) = name

abbrev pub join : Text → List Text → Text
join separator [] = []
join separator (t ∷ []) = t
join separator (t ∷ u ∷ ts) = t ++ (separator ++ join separator (u ∷ ts))

unfoldable pub error_text : CensusFault → Text
error_text (value_error message) = message
error_text (publication_blocked checks) = text "publication blocked: " ++ join (text ", ") checks
error_text (raised name message) = message

unfoldable pub executor_kind_for_anchor : Catalog → BlockRef → ExecutorKind
executor_kind_for_anchor catalog anchor =
    if leb catalog.multicall_deployment_block anchor.number then multicall3 else legacy_rpc_batch

-- What the runner is built with, the clock and the source of identifiers. Collectors and the
-- verifier of code only read the chain.
pub record Runner : Type 0 where
  pub catalog : Catalog
  pub db : Database
  pub now : History → ℕ
  pub uuid4 : History → Text
  pub resolve_universe : Text → Text → ℕ → Result CensusFault FrozenUniverse
  pub verify_code : Text → BlockRef → Option Text → Result CensusFault (Unit {0})
  pub collect_erc20 :
      TokenConfig
      → FrozenUniverse
      → BlockRef
      → IntegrityMode
      → Result CensusFault TokenCollectionResult
  pub collect_atoken :
      TokenConfig
      → FrozenUniverse
      → BlockRef
      → IntegrityMode
      → Result CensusFault TokenCollectionResult
  pub collect_pool : PoolConfig → BlockRef → IntegrityMode → Result CensusFault PoolCollectionResult
  pub collect_balancer :
      Option (PoolConfig → BlockRef → IntegrityMode → Result CensusFault PoolCollectionResult)
  pub vault_target : PoolConfig → Text
  pub collect_cl :
      Option (PoolConfig → BlockRef → IntegrityMode → Result CensusFault PoolClCollectionResult)

abbrev pub Census : Type 0 → Type 0
Census A = Exec History CensusFault A

abbrev pub after_answer : Answer → Write → History → Result CensusFault (Unit {0}) × History
after_answer stored w h = (ok tt, w ∷ h)
after_answer (refused fault) w h = (err fault, h)
after_answer (stored_but_raised fault) w h = (err fault, w ∷ h)

-- One insertion.
unfoldable pub write : Database → Write → Census (Unit {0})
write db w h = after_answer (db.answer w h) w h

-- A read sees what is stored and stores nothing.
unfoldable pub read : {A : Type 0} → (History → Result CensusFault A) → Census A
read select h = (select h, h)
