-- ===== src/Census/Publish.antt =====
-- The publication of core/census.py: the read-backs, the checks, and the rows that make an attempt
-- verified and published. Metrics are left out.
use rpc_state_indexer.Prelude.{
  ℕ, ◌+◌, Bool, true, false, Option, none, some, List, [], ◌∷◌, ◌++◌, Result, ok, err, length, all,
  ltb, ◌==◌, if◌then◌else◌,
}
use rpc_state_indexer.Prelude.Text.{Text, text, text_eq}
use rpc_state_indexer.Prelude.Exec.{pure, lift, ◌>>=◌, ◌>>◌}
use rpc_state_indexer.Domain.{
  IntegrityMode, scaled_full_supply, FrozenUniverse, IntegrityResult, BalanceRow, ScalarRow,
}
use rpc_state_indexer.Storage.Repository.{
  AttemptRow, PublicationRow, verified, History, CensusFault, publication_blocked,
  insert_attempt_state, append_publication, readback_universe_digest, readback_token_digest,
  readback_pool_digest, readback_cl_digest,
}
use rpc_state_indexer.Census.Base.{
  Runner, Collected, TokenCollectionResult, PoolCollectionResult, PoolClCollectionResult,
  is_verified, batch_verified, token_digest, pool_digest, cl_digest, Census, write, read,
}
use rpc_state_indexer.Census.Evidence.{batches_json, publication_context, batches_verified}

abbrev pub uint256_max : ℕ
uint256_max = 115792089237316195423570985008687907853269984665640564039457584007913129639935

-- The two lists of `_publication_checks`.
pub record Checks : Type 0 where
  pub failed : List Text
  pub passed : List Text

-- `if test: passed.append(good) else: failed.append(bad)`.
unfoldable pub note : Bool → Text → Text → Checks → Checks
note true good bad c = record c { passed = c.passed ++ good ∷ [] }
note false good bad c = record c { failed = c.failed ++ bad ∷ [] }

unfoldable pub note_integrity : List IntegrityResult → Checks → Checks
unfolding note
note_integrity [] c = c
note_integrity (check ∷ checks) c =
    note_integrity checks (note check.passed check.check check.check c)

-- The end of `_publication_checks`.
abbrev pub conclude : List Text → Bool → List Text → Result CensusFault (List Text)
conclude [] true passed = ok passed
conclude [] false passed = err (publication_blocked (text "collector_not_verified" ∷ []))
conclude (f ∷ fs) success passed = err (publication_blocked (f ∷ fs))

-- The checks that every kind of result has.
unfoldable pub common_checks : ℕ → Collected → Text → Text → Checks
unfolding note note_integrity
common_checks error_count result readback digest =
    note (text_eq readback digest) (text "observation_readback_digest")
      (text "observation_readback_digest")
      (note_integrity result.integrity_checks (
        note (all batch_verified result.batches) (text "all_batches_verified")
          (text "unverified_batch")
          (note (error_count == 0) (text "zero_terminal_errors") (text "terminal_errors_present")
            (record { failed = []; passed = text "historical_code_verified" ∷ [] }))))

unfoldable pub verified_readback : (Bool → History → Result CensusFault Text) → Text → Census Text
verified_readback select expected = do
  digest ← read (select false)
  if text_eq digest expected then pure digest else read (select true)

abbrev pub any_missing : List BalanceRow → Bool
any_missing [] = false
any_missing (row ∷ rows) = elim row.scaled_balance_raw [ none ↦ true | some v ↦ any_missing rows ]

abbrev pub or_zero : Option ℕ → ℕ
or_zero none = 0
or_zero (some v) = v

abbrev pub sum_scaled : List BalanceRow → ℕ
sum_scaled [] = 0
sum_scaled (row ∷ rows) = or_zero row.scaled_balance_raw + sum_scaled rows

abbrev pub sum_raw : List BalanceRow → ℕ
sum_raw [] = 0
sum_raw (row ∷ rows) = row.balance_raw + sum_raw rows

-- The dictionary of the scalars: the last of a name counts.
abbrev pub scalar_value : Text → List ScalarRow → Option ℕ → Option ℕ
scalar_value name [] found = found
scalar_value name (row ∷ rows) found =
    scalar_value name rows (if text_eq row.scalar_name name then some row.scalar_raw else found)

abbrev pub bounded : ℕ → Option ℕ → Result CensusFault (ℕ × Option ℕ)
bounded observed_sum supply =
    if ltb uint256_max observed_sum
    then err (publication_blocked (text "observed_sum_overflow" ∷ []))
    else ok (observed_sum, supply)

-- `observed_sum` and `reference_supply`.
unfoldable pub observed_supply :
    IntegrityMode → TokenCollectionResult → Result CensusFault (ℕ × Option ℕ)
observed_supply scaled_full_supply result =
    if any_missing result.balances
    then err (publication_blocked (text "scaled_balance_missing" ∷ []))
    else bounded (sum_scaled result.balances)
        (scalar_value (text "scaledTotalSupply") result.scalars none)
observed_supply mode result =
    bounded (sum_raw result.balances) (scalar_value (text "totalSupply") result.scalars none)

module _ (runner : Runner) (base : AttemptRow) where
  unfoldable pub terminal_errors : ℕ → Census ℕ
  terminal_errors expected = do
    count ← read (runner.db.error_count base.scope false)
    if count == expected then pure count else read (runner.db.error_count base.scope true)

  -- `_publication_checks`; the universe is read back for the result of a token.
  unfoldable pub publication_checks :
      Option FrozenUniverse → Collected → Text → Text → Census (List Text)
  publication_checks none result readback digest = do
    count ← terminal_errors (length result.errors)
    let checks = common_checks count result readback digest
    lift (conclude checks.failed (is_verified result) checks.passed)
  publication_checks (some universe) result readback digest = do
    count ← terminal_errors (length result.errors)
    let checks = common_checks count result readback digest
    again ← verified_readback (readback_universe_digest runner.db base.scope) universe.universe_hash
    let all_checks =
        note (text_eq again universe.universe_hash) (text "universe_readback_digest")
          (text "universe_readback_digest") checks
    lift (conclude all_checks.failed (is_verified result) all_checks.passed)

  unfoldable pub verified_row : Collected → ℕ → Text → ℕ → AttemptRow
  verified_row result observations_ok digest finished = record base {
    status = verified;
    block_reference_kind = (publication_context result.batches).1;
    batches_total = length result.batches;
    batches_verified = batches_verified result.batches;
    observations_ok = observations_ok;
    observations_failed = length result.errors;
    result_digest = some digest;
    batches_json = some (batches_json result.batches);
    heartbeat_at = finished;
    finished_at = some finished;
  }

  -- The job, the target, the date and the identifier that the source passes on beside `base` are
  -- those of its scope in every caller, and the universe's hash is that of `base`.
  unfoldable pub publication_row :
      Collected → ℕ → Text → ℕ → Option ℕ → Option ℕ → List Text → ℕ → Text → PublicationRow
  publication_row result observations_ok digest universe_size observed supply checks finished id =
      let (executor, reference, providers) = publication_context result.batches in
      record {
        scope = base.scope;
        target_kind = base.target_kind;
        publication_id = id;
        executor_kind = executor;
        block_reference_kind = reference;
        integrity_mode = base.integrity_mode;
        config_hash = base.config_hash;
        anchor_block = base.anchor_block;
        anchor_hash = base.anchor_hash;
        universe_hash = base.universe_hash;
        universe_size = universe_size;
        result_digest = digest;
        observed_sum_raw = observed;
        reference_supply_raw = supply;
        batches_total = length result.batches;
        observations_total = observations_ok;
        provider_groups = providers;
        checks_passed = checks;
        published_at = finished;
      }

  -- The two insertions that end every publication: the attempt is verified, then published.
  unfoldable pub conclude_attempt :
      Collected → ℕ → Text → ℕ → Option ℕ → Option ℕ → List Text → Census (Unit {0})
  conclude_attempt result observations_ok digest universe_size observed supply checks = do
    finished ← read (λ h. ok (runner.now h))
    write runner.db (insert_attempt_state (verified_row result observations_ok digest finished))
    id ← read (λ h. ok (runner.uuid4 h))
    write runner.db (
        append_publication (
          publication_row result observations_ok digest universe_size observed supply checks
            finished id))

  unfoldable pub publish_token : FrozenUniverse → TokenCollectionResult → Census (Unit {0})
  publish_token universe result = do
    digest ← lift (token_digest runner.db.sha256 result)
    readback ← verified_readback (readback_token_digest runner.db base.scope) digest
    checks ← publication_checks (some universe) result.collected readback digest
    amounts ← lift (observed_supply base.integrity_mode result)
    conclude_attempt result.collected (length result.balances + length result.scalars) digest
        (length universe.addresses) (some amounts.0) amounts.1 checks

  unfoldable pub publish_pool : PoolCollectionResult → Census (Unit {0})
  publish_pool result = do
    digest ← lift (pool_digest runner.db.sha256 result)
    readback ← verified_readback (readback_pool_digest runner.db base.scope) digest
    checks ← publication_checks none result.collected readback digest
    conclude_attempt result.collected (length result.balances) digest 0 none none checks

  unfoldable pub publish_pool_cl : PoolClCollectionResult → Census (Unit {0})
  publish_pool_cl result = do
    digest ← lift (cl_digest runner.db.sha256 result)
    readback ← verified_readback (readback_cl_digest runner.db base.scope) digest
    checks ← publication_checks none result.collected readback digest
    conclude_attempt result.collected (1 + length result.ticks) digest 0 none none checks
