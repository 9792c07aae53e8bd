-- ===== src/Census/Run/Attempted.antt =====
-- A run of core/census.py raises before it stores anything, or is one attempt.
use rpc_state_indexer.Prelude.{ℕ, ◌≡◌, refl, Result, ok, err}
use rpc_state_indexer.Prelude.Text.{Text}
use rpc_state_indexer.Prelude.Exec.{lift, ◌>>=◌}
use rpc_state_indexer.Domain.{BlockRef}
use rpc_state_indexer.Storage.Repository.{AttemptRow, started, History, CensusFault}
use rpc_state_indexer.Census.Base.{JobConfig, TokenConfig, PoolConfig, Runner, Census, read}
use rpc_state_indexer.Census.Run.{attempt_base, attempt, run_token, run_pool}
use rpc_state_indexer.Census.Run.Tail.{Body, token_body-Body, pool_body-Body}

pub data Attempted (runner : Runner) (id : Text) (h : History)
    (r : Result CensusFault Text × History) : Type 0 where
  unstarted : (fault : CensusFault) → r ≡ (err fault, h) → Attempted runner id h r
  begun :
      (base : AttemptRow) (body : Census (Unit {0}))
      → base.scope.attempt_id ≡ id
      → base.status ≡ started
      → Body runner.db base body
      → r ≡ attempt runner base body h
      → Attempted runner id h r

module _ (runner : Runner) (id : Text) (h : History) where
  lifted :
      {A : Type 0} (r : Result CensusFault A) (f : A → Census Text)
      → ((a : A) → Attempted runner id h (f a h))
      → Attempted runner id h ((lift r >>= f) h)
  unfolding ◌>>=◌
  lifted (ok a) f later = later a
  lifted (err fault) f later = unstarted fault refl

  begun_with :
      (base : History → AttemptRow) (body : AttemptRow → Census (Unit {0}))
      → (base h).scope.attempt_id ≡ id
      → (base h).status ≡ started
      → Body runner.db (base h) (body (base h))
      → Attempted runner id h ((read (λ k. ok (base k)) >>= (λ b. attempt runner b (body b))) h)
  unfolding ◌>>=◌ read
  begun_with base body is_id is_started ends =
      begun (base h) (body (base h)) is_id is_started ends refl

module _ (runner : Runner) (job : JobConfig) (date : ℕ) (anchor : BlockRef) (h : History) where
  pub run_token-Attempted :
      (target : TokenConfig)
      → Attempted runner (runner.uuid4 h) h (run_token runner job target date anchor h)
  unfolding run_token attempt_base
  run_token-Attempted target =
      let id = runner.uuid4 h in
      lifted runner id h _ _ λ name. lifted runner id h _ _ λ u. lifted runner id h _ _ λ universe.
        begun_with runner id h _ _ refl refl (token_body-Body _ runner job target anchor universe)

  pub run_pool-Attempted :
      (target : PoolConfig)
      → Attempted runner (runner.uuid4 h) h (run_pool runner job target date anchor h)
  unfolding run_pool attempt_base
  run_pool-Attempted target =
      let id = runner.uuid4 h in
      lifted runner id h _ _ λ u.
        lifted runner id h _ _
          λ digest. begun_with runner id h _ _ refl refl (pool_body-Body _ runner job target anchor)
