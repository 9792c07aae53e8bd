-- ===== src/Census/Run.antt =====
-- `run_token` and `run_pool` of core/census.py: one attempt, from its row `started` to its
-- publication or its row `failed`.
pub mod Quiet
pub mod Tail
pub mod Attempted
pub mod Life
pub mod Settle
pub mod Sound
pub mod Inversion
pub mod Checked
use rpc_state_indexer.Prelude.{
  ℕ, Bool, true, false, Option, none, some, List, [], ◌∷◌, ◌++◌, Result, ok, err, length, ltb, leb,
  take, if◌then◌else◌,
}
use rpc_state_indexer.Prelude.Text.{Text, text}
use rpc_state_indexer.Prelude.Exec.{pure, raise, lift, ◌>>=◌, ◌>>◌}
use rpc_state_indexer.Domain.{
  BlockRef, ExecutorKind, multicall3, legacy_rpc_batch, IntegrityMode, cl_liquidity, FrozenUniverse,
}
use rpc_state_indexer.Storage.Repository.{
  AttemptScope, TargetKind, token, pool, AttemptRow, started, failed, History, CensusFault,
  value_error, insert_attempt_state, digest_or_raise,
}
use rpc_state_indexer.Storage.Digests.{digest_universe}
use rpc_state_indexer.Census.Base.{
  JobConfig, TokenConfig, PoolConfig, Runner, TokenCollectionResult, PoolCollectionResult,
  PoolClCollectionResult, executor_kind_for_anchor, error_class, error_text, Census, write, read,
}
use rpc_state_indexer.Census.Persist.{
  persist_universe, persist_token_result, persist_pool_result, persist_pool_cl_result,
}
use rpc_state_indexer.Census.Publish.{publish_token, publish_pool, publish_pool_cl}

abbrev pub is_before : ℕ → Option ℕ → Bool
is_before value none = false
is_before value (some start) = ltb value start

abbrev pub is_at_or_after : ℕ → Option ℕ → Bool
is_at_or_after value none = false
is_at_or_after value (some end) = leb end value

unfoldable pub check_date_window : Option ℕ → Option ℕ → ℕ → Result CensusFault (Unit {0})
check_date_window date_start date_end value =
    if is_before value date_start
    then err (value_error (text "snapshot is before the entity date_start"))
    else if is_at_or_after value date_end
    then err (value_error (text "snapshot is outside the entity date_end"))
    else ok tt

abbrev pub universe_or_raise : Option Text → Result CensusFault Text
universe_or_raise none = err (value_error (text "token census requires a universe selector"))
universe_or_raise (some name) = ok name

module _ (runner : Runner) where
  unfoldable pub attempt_base :
      Text → JobConfig → TargetKind → Text → ℕ → BlockRef → FrozenUniverse → ℕ → AttemptRow
  attempt_base id job kind address snapshot_date anchor universe now = record {
    scope = record {
      chain_id = runner.catalog.chain_id;
      job_name = job.name;
      target_address = address;
      snapshot_date = snapshot_date;
      attempt_id = id;
    };
    target_kind = kind;
    status = started;
    integrity_mode = job.integrity_mode;
    config_hash = runner.catalog.target_config_hash job.name address;
    anchor_block = anchor.number;
    anchor_hash = anchor.block_hash;
    executor_kind = executor_kind_for_anchor runner.catalog anchor;
    block_reference_kind = text "pending";
    universe_hash = universe.universe_hash;
    universe_size = length universe.addresses;
    batches_total = 0;
    batches_verified = 0;
    observations_ok = 0;
    observations_failed = 0;
    result_digest = none;
    batches_json = none;
    error_class = [];
    error_message = [];
    started_at = now;
    heartbeat_at = now;
    finished_at = none;
  }

  unfoldable pub failed_row : AttemptRow → CensusFault → ℕ → AttemptRow
  failed_row base fault now = record base {
    status = failed;
    error_class = error_class fault;
    error_message = take 4096 (error_text fault);
    finished_at = some now;
  }

  -- `raise` at the end of the handler; an exception of the handler's own takes its place.
  abbrev pub reraise :
      CensusFault → Result CensusFault (Unit {0}) × History → Result CensusFault Text × History
  reraise fault (ok t, h) = (err fault, h)
  reraise fault (err other, h) = (err other, h)

  -- `except BaseException`, and `return attempt_id` after the `try`.
  unfoldable pub settle :
      AttemptRow → Result CensusFault (Unit {0}) × History → Result CensusFault Text × History
  settle base (ok t, h) = (ok base.scope.attempt_id, h)
  settle base (err fault, h) =
      reraise fault
        (write runner.db (insert_attempt_state (failed_row base fault (runner.now h))) h)

  -- The row `started`, then the body under the handler.
  unfoldable pub attempt : AttemptRow → Census (Unit {0}) → Census Text
  attempt base body = do write runner.db (insert_attempt_state base); λ h. settle base (body h)

  unfoldable pub verify_multicall_code : BlockRef → ExecutorKind → Result CensusFault (Unit {0})
  verify_multicall_code anchor legacy_rpc_batch = ok tt
  verify_multicall_code anchor multicall3 = elim runner.catalog.multicall_runtime_code_hash [
    | none ↦ err (value_error (text "Multicall3 runtime code hash is not configured"))
    | some code_hash ↦ runner.verify_code runner.catalog.multicall_address anchor (some code_hash)
  ]

  abbrev pub verify_source : Option Text → BlockRef → Result CensusFault (Unit {0})
  verify_source none anchor = ok tt
  verify_source (some contract) anchor = runner.verify_code contract anchor none

  abbrev pub verify_all : List Text → BlockRef → Census (Unit {0})
  verify_all [] anchor = pure tt
  verify_all (address ∷ rest) anchor =
      lift (runner.verify_code address anchor none) >> verify_all rest anchor

  unfoldable pub verify_token_code : TokenConfig → BlockRef → ExecutorKind → Census (Unit {0})
  verify_token_code target anchor kind = do
    lift (runner.verify_code target.address anchor none)
    lift (verify_source target.index_source anchor)
    lift (verify_multicall_code anchor kind)

  abbrev pub collect_token :
      JobConfig → TokenConfig → FrozenUniverse → BlockRef → Result CensusFault TokenCollectionResult
  collect_token job target universe anchor =
      if target.is_atoken
      then runner.collect_atoken target universe anchor job.integrity_mode
      else runner.collect_erc20 target universe anchor job.integrity_mode

  -- The body of the `try` of `run_token`, with `_persist_and_publish_token`.
  unfoldable pub token_body :
      JobConfig → TokenConfig → BlockRef → FrozenUniverse → AttemptRow → Census (Unit {0})
  token_body job target anchor universe base = do
    verify_token_code target anchor base.executor_kind
    result ← lift (collect_token job target universe anchor)
    persist_universe runner base.scope universe
    persist_token_result runner base.scope result
    publish_token runner base universe result

  unfoldable pub run_token : JobConfig → TokenConfig → ℕ → BlockRef → Census Text
  run_token job target snapshot_date anchor = do
    name ← lift (universe_or_raise job.universe)
    lift (check_date_window target.date_start target.date_end snapshot_date)
    universe ← lift (runner.resolve_universe name target.address anchor.number)
    base ← read (λ h. ok (
        attempt_base (runner.uuid4 h) job token target.address snapshot_date anchor universe
          (runner.now h)))
    attempt base (token_body job target anchor universe base)

  abbrev pub persist_and_publish_cl : AttemptRow → PoolClCollectionResult → Census (Unit {0})
  persist_and_publish_cl base result =
      persist_pool_cl_result runner base.scope result >> publish_pool_cl runner base result

  abbrev pub persist_and_publish_pool : AttemptRow → PoolCollectionResult → Census (Unit {0})
  persist_and_publish_pool base result =
      persist_pool_result runner base.scope result >> publish_pool runner base result

  abbrev pub or_unconfigured {ℓ} : {A : Type ℓ} → Text → Option A → Result CensusFault A
  or_unconfigured message none = err (value_error message)
  or_unconfigured message (some collector) = ok collector

  -- The three ways to collect, as the job and the pool choose.
  unfoldable pub collect_and_publish :
      JobConfig → PoolConfig → BlockRef → AttemptRow → Bool → IntegrityMode → Census (Unit {0})
  collect_and_publish job target anchor base balancer cl_liquidity = do
    collect ← lift (
        or_unconfigured
          (text "job " ++ job.name ++ text " is cl_liquidity but no CL collector is configured")
          runner.collect_cl)
    result ← lift (collect target anchor job.integrity_mode)
    persist_and_publish_cl base result
  collect_and_publish job target anchor base true mode = do
    collect ← lift (
        or_unconfigured
          (text "pool "
            ++ target.address
            ++ text " is "
            ++ target.pool_class
            ++ text " but no Balancer collector is configured")
          runner.collect_balancer)
    lift (runner.verify_code (runner.vault_target target) anchor none)
    result ← lift (collect target anchor job.integrity_mode)
    persist_and_publish_pool base result
  collect_and_publish job target anchor base false mode = do
    result ← lift (runner.collect_pool target anchor job.integrity_mode)
    persist_and_publish_pool base result

  -- The body of the `try` of `run_pool`.
  unfoldable pub pool_body : JobConfig → PoolConfig → BlockRef → AttemptRow → Census (Unit {0})
  pool_body job target anchor base = do
    lift (runner.verify_code target.address anchor none)
    verify_all target.assets anchor
    lift (verify_multicall_code anchor base.executor_kind)
    collect_and_publish job target anchor base target.is_balancer job.integrity_mode

  abbrev pub empty_universe : Text → FrozenUniverse
  empty_universe digest = record { addresses = []; sources = []; universe_hash = digest }

  unfoldable pub run_pool : JobConfig → PoolConfig → ℕ → BlockRef → Census Text
  run_pool job target snapshot_date anchor = do
    lift (check_date_window target.date_start target.date_end snapshot_date)
    digest ← lift (digest_or_raise (digest_universe runner.db.sha256 []))
    base ← read (λ h. ok (
        attempt_base (runner.uuid4 h) job pool target.address snapshot_date anchor
          (empty_universe digest) (runner.now h)))
    attempt base (pool_body job target anchor base)
