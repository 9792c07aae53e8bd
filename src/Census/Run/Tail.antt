-- ===== src/Census/Run/Tail.antt =====
-- How the body of an attempt ends: quiet insertions, and the two of `conclude_attempt` after them if
-- it gets that far.
use rpc_state_indexer.Prelude.{
  ℕ, Bool, true, false, List, ◌∷◌, ◌≡◌, ◌≢◌, refl, ◌⊎◌, inl, inr, Option, some, Result, ok, err,
}
use rpc_state_indexer.Prelude.Text.{Text}
use rpc_state_indexer.Prelude.Exec.{◌>>=◌, continue}
use rpc_state_indexer.Domain.{BlockRef, IntegrityMode, cl_liquidity, FrozenUniverse}
use rpc_state_indexer.Storage.Repository.{
  AttemptRow, PublicationRow, Database, verified, Write, History, CensusFault, Answer, stored,
  refused, stored_but_raised, insert_attempt_state, append_publication,
}
use rpc_state_indexer.Census.Base.{
  JobConfig, TokenConfig, PoolConfig, Runner, Collected, TokenCollectionResult,
  PoolCollectionResult, PoolClCollectionResult, Census, after_answer, write, read,
}
use rpc_state_indexer.Census.Publish.{
  verified_row, publication_row, conclude_attempt, publish_token, publish_pool, publish_pool_cl,
}
use rpc_state_indexer.Census.Run.{token_body, collect_and_publish, pool_body}
use rpc_state_indexer.Census.Run.Quiet.{
  Extends, same, Extends-trans, Quiet, Quiet-lift, Quiet-read, persist_universe-Quiet,
  persist_token_result-Quiet, persist_pool_result-Quiet, persist_pool_cl_result-Quiet,
  verified_readback-Quiet, publication_checks-Quiet, verify_all-Quiet, verify_token_code-Quiet,
}

-- The row `verified` is the attempt's, and the publication repeats what it says.
pub record Agrees (base v : AttemptRow) (p : PublicationRow) : Type 0 where
  pub is_verified : v.status ≡ verified
  pub row_scope : v.scope ≡ base.scope
  pub scope : p.scope ≡ base.scope
  pub target_kind : p.target_kind ≡ v.target_kind
  pub integrity_mode : p.integrity_mode ≡ v.integrity_mode
  pub config_hash : p.config_hash ≡ v.config_hash
  pub anchor_block : p.anchor_block ≡ v.anchor_block
  pub anchor_hash : p.anchor_hash ≡ v.anchor_hash
  pub universe_hash : p.universe_hash ≡ v.universe_hash
  pub block_reference_kind : p.block_reference_kind ≡ v.block_reference_kind
  pub result_digest : some p.result_digest ≡ v.result_digest
  pub batches_total : p.batches_total ≡ v.batches_total
  pub observations_total : p.observations_total ≡ v.observations_ok

-- Quiet insertions, then the row `verified`.
pub record Verified (base : AttemptRow) (h h' : History) : Type 0 where
  pub before : History
  pub row : AttemptRow
  pub quiet : Extends h before
  pub status : row.status ≡ verified
  pub scope : row.scope ≡ base.scope
  pub shape : h' ≡ insert_attempt_state row ∷ before

-- Quiet insertions, then the row `verified` and the publication.
pub record Published (base : AttemptRow) (h h' : History) : Type 0 where
  pub before : History
  pub row : AttemptRow
  pub publication : PublicationRow
  pub quiet : Extends h before
  pub agrees : Agrees base row publication
  pub shape : h' ≡ append_publication publication ∷ insert_attempt_state row ∷ before

-- The database did not just store what it was given.
abbrev pub Failing : Database → Type 0
Failing db = (w : Write) × (k : History) × (db.answer w k ≢ stored)

abbrev pub Tail : Database → AttemptRow → History → Result CensusFault (Unit {0}) × History → Type 0
Tail db base h (ok a, h') = Published base h h'
Tail db base h (err fault, h') =
    Extends h h' ⊎ Verified base h h' ⊎ (Published base h h' × Failing db)

-- The method ends in this way from every history.
pub record Body (db : Database) (base : AttemptRow) (m : Census (Unit {0})) : Type 0 where
  pub at : (h : History) → Tail db base h (m h)

module _ (db : Database) (base : AttemptRow) where
  publication_Tail :
      (h : History) (v : AttemptRow) (p : PublicationRow) (a : Answer)
      → db.answer (append_publication p) (insert_attempt_state v ∷ h) ≡ a
      → Agrees base v p
      → Tail db base h (after_answer a (append_publication p) (insert_attempt_state v ∷ h))
  publication_Tail h v p stored e agrees = record {
    before = h;
    row = v;
    publication = p;
    quiet = same;
    agrees = agrees;
    shape = refl;
  }
  publication_Tail h v p (refused fault) e agrees = inr (
      inl (record {
        before = h;
        row = v;
        quiet = same;
        status = agrees.is_verified;
        scope = agrees.row_scope;
        shape = refl;
      }))
  publication_Tail h v p (stored_but_raised fault) e agrees = inr (
      inr (
        record {
          before = h;
          row = v;
          publication = p;
          quiet = same;
          agrees = agrees;
          shape = refl;
        },
        (append_publication p, insert_attempt_state v ∷ h, λ x. cc (x, e)),
      ))

  verified_Tail :
      (h : History) (v : AttemptRow) (a : Answer) (rest : Unit {0} → Census (Unit {0}))
      → v.status ≡ verified
      → v.scope ≡ base.scope
      → Tail db base h (rest tt (insert_attempt_state v ∷ h))
      → Tail db base h (continue (after_answer a (insert_attempt_state v) h) rest)
  verified_Tail h v stored rest is_verified scope later = later
  verified_Tail h v (refused fault) rest is_verified scope later = inl same
  verified_Tail h v (stored_but_raised fault) rest is_verified scope later = inr (
      inl (record {
        before = h;
        row = v;
        quiet = same;
        status = is_verified;
        scope = scope;
        shape = refl;
      }))

  earlier_Verified : {g h k : History} → Extends g h → Verified base h k → Verified base g k
  earlier_Verified e v = record {
    before = v.before;
    row = v.row;
    quiet = Extends-trans e v.quiet;
    status = v.status;
    scope = v.scope;
    shape = v.shape;
  }

  earlier_Published : {g h k : History} → Extends g h → Published base h k → Published base g k
  earlier_Published e p = record {
    before = p.before;
    row = p.row;
    publication = p.publication;
    quiet = Extends-trans e p.quiet;
    agrees = p.agrees;
    shape = p.shape;
  }

  -- What was quiet before a method that ends so is part of its end.
  after_quiet :
      {g h : History} (r : Result CensusFault (Unit {0}) × History)
      → Extends g h
      → Tail db base h r
      → Tail db base g r
  after_quiet (ok t, h') e p = earlier_Published e p
  after_quiet (err fault, h') e (inl q) = inl (Extends-trans e q)
  after_quiet (err fault, h') e (inr (inl v)) = inr (inl (earlier_Verified e v))
  after_quiet (err fault, h') e (inr (inr (p, failing))) =
      inr (inr (earlier_Published e p, failing))

  continue-Tail :
      {A : Type 0} {h : History} (r : Result CensusFault A × History) (f : A → Census (Unit {0}))
      → Extends h r.1
      → ((a : A) → Body db base (f a))
      → Tail db base h (continue r f)
  continue-Tail (ok a, h') f e later = after_quiet (f a h') e ((later a).at h')
  continue-Tail (err fault, h') f e later = inl e

  Body-bind :
      {A : Type 0} (m : Census A) (f : A → Census (Unit {0}))
      → Quiet m
      → ((a : A) → Body db base (f a))
      → Body db base (m >>= f)
  unfolding ◌>>=◌
  Body-bind m f q later = record { at = λ h. continue-Tail (m h) f (q.at h) later }

module _ (base : AttemptRow) (runner : Runner) where
  conclude_attempt-Body :
      (result : Collected) (n : ℕ) (digest : Text) (size : ℕ) (observed supply : Option ℕ)
      (checks : List Text)
      → Body runner.db base
          (conclude_attempt runner base result n digest size observed supply checks)
  unfolding conclude_attempt ◌>>=◌ read write verified_row publication_row
  conclude_attempt-Body result n digest size observed supply checks = record {
    at = λ h.
        let v = verified_row runner base result n digest (runner.now h) in
        verified_Tail runner.db base h v (runner.db.answer (insert_attempt_state v) h) _ refl refl (
          publication_Tail runner.db base h v _ (runner.db.answer _ (insert_attempt_state v ∷ h))
            refl
            (record {
              is_verified = refl;
              row_scope = refl;
              scope = refl;
              target_kind = refl;
              integrity_mode = refl;
              config_hash = refl;
              anchor_block = refl;
              anchor_hash = refl;
              universe_hash = refl;
              block_reference_kind = refl;
              result_digest = refl;
              batches_total = refl;
              observations_total = refl;
            }));
  }

  ruleset body_rules = (
    Body-bind, conclude_attempt-Body, Quiet-lift, Quiet-read, verified_readback-Quiet,
    publication_checks-Quiet,
  )

  publish_token-Body :
      (universe : FrozenUniverse) (result : TokenCollectionResult)
      → Body runner.db base (publish_token runner base universe result)
  unfolding publish_token
  publish_token-Body universe result = search body_rules depth 12

  publish_pool-Body :
      (result : PoolCollectionResult) → Body runner.db base (publish_pool runner base result)
  unfolding publish_pool
  publish_pool-Body result = search body_rules depth 12

  publish_pool_cl-Body :
      (result : PoolClCollectionResult) → Body runner.db base (publish_pool_cl runner base result)
  unfolding publish_pool_cl
  publish_pool_cl-Body result = search body_rules depth 12

  ruleset run_rules = (
    Body-bind, Quiet-lift, persist_universe-Quiet, persist_token_result-Quiet,
    persist_pool_result-Quiet, persist_pool_cl_result-Quiet, publish_token-Body, publish_pool-Body,
    publish_pool_cl-Body, verify_all-Quiet, verify_token_code-Quiet,
  )

  pub token_body-Body :
      (job : JobConfig) (target : TokenConfig) (anchor : BlockRef) (universe : FrozenUniverse)
      → Body runner.db base (token_body runner job target anchor universe base)
  unfolding token_body
  token_body-Body job target anchor universe = search run_rules depth 14

  collect_and_publish-Body :
      (job : JobConfig) (target : PoolConfig) (anchor : BlockRef) (balancer : Bool)
      (mode : IntegrityMode)
      → Body runner.db base (collect_and_publish runner job target anchor base balancer mode)
  unfolding collect_and_publish
  collect_and_publish-Body job target anchor balancer cl_liquidity = search run_rules depth 12
  collect_and_publish-Body job target anchor true mode = search run_rules depth 12
  collect_and_publish-Body job target anchor false mode = search run_rules depth 12

  pub pool_body-Body :
      (job : JobConfig) (target : PoolConfig) (anchor : BlockRef)
      → Body runner.db base (pool_body runner job target anchor base)
  unfolding pool_body
  pool_body-Body job target anchor = search (run_rules, collect_and_publish-Body) depth 12
