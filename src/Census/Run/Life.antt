-- ===== src/Census/Run/Life.antt =====
-- The life of an attempt, as an abstract machine over its rows, and that the runs of core/census.py
-- follow it.
use rpc_state_indexer.Prelude.{
  ℕ, List, [], ◌∷◌, ◌++◌, ◌≡◌, refl, ap, ◌∙◌, inl, inr, Result, ok, err,
}
use rpc_state_indexer.Prelude.Text.{Text}
use rpc_state_indexer.Prelude.Exec.{◌>>=◌, continue}
use rpc_state_indexer.Domain.{BlockRef}
use rpc_state_indexer.Storage.Repository.{
  AttemptRow, PublicationRow, Status, started, verified, failed, Write, History, CensusFault,
  Answer, stored, refused, stored_but_raised, insert_attempt_state, insert_universe_members,
  insert_token_balances, insert_token_scalars, insert_pool_balances, insert_pool_cl_state,
  insert_pool_ticks, insert_terminal_errors, append_publication, insert_anchor,
}
use rpc_state_indexer.Census.Base.{
  JobConfig, TokenConfig, PoolConfig, Runner, Census, after_answer, write,
}
use rpc_state_indexer.Census.Run.{failed_row, reraise, settle, attempt, run_token, run_pool}
use rpc_state_indexer.Census.Run.Quiet.{IsQuiet, Extends, same, more}
use rpc_state_indexer.Census.Run.Tail.{Verified, Published, Tail, Body}
use rpc_state_indexer.Census.Run.Attempted.{
  Attempted, unstarted, begun, run_token-Attempted, run_pool-Attempted,
}

pub data Event : Type 0 where
  state : Text → Status → Event
  publish : Text → Event

pub data Phase : Type 0 where
  idle running checked announced broken : Phase

-- The moves of the attempt `id`.
pub data Move (id : Text) : Phase → Event → Phase → Type 0 where
  begin : Move id idle (state id started) running
  check : Move id running (state id verified) checked
  announce : Move id checked (publish id) announced
  break_running : Move id running (state id failed) broken
  break_checked : Move id checked (state id failed) broken
  break_announced : Move id announced (state id failed) broken

-- A run of the machine from `idle`, the latest event first.
pub data Course (id : Text) : List Event → Phase → Type 0 where
  start : Course id [] idle
  step :
      {es : List Event} {s t : Phase} {e : Event}
      → Course id es s
      → Move id s e t
      → Course id (e ∷ es) t

-- The rows of attempts and the publications among what is stored.
abbrev pub event_of : Write → List Event → List Event
event_of (insert_attempt_state row) es = state row.scope.attempt_id row.status ∷ es
event_of (append_publication row) es = publish row.scope.attempt_id ∷ es
event_of (insert_universe_members rows) es = es
event_of (insert_token_balances rows i) es = es
event_of (insert_token_scalars rows i) es = es
event_of (insert_pool_balances rows i) es = es
event_of (insert_pool_cl_state row c) es = es
event_of (insert_pool_ticks rows i) es = es
event_of (insert_terminal_errors rows) es = es
event_of (insert_anchor row) es = es

abbrev pub events : History → List Event
events [] = []
events (w ∷ h) = event_of w (events h)

event_of-IsQuiet : (w : Write) (es : List Event) → IsQuiet w → event_of w es ≡ es
event_of-IsQuiet (insert_attempt_state row) es q = absurd q
event_of-IsQuiet (append_publication row) es q = absurd q
event_of-IsQuiet (insert_universe_members rows) es q = refl
event_of-IsQuiet (insert_token_balances rows i) es q = refl
event_of-IsQuiet (insert_token_scalars rows i) es q = refl
event_of-IsQuiet (insert_pool_balances rows i) es q = refl
event_of-IsQuiet (insert_pool_cl_state row c) es q = refl
event_of-IsQuiet (insert_pool_ticks rows i) es q = refl
event_of-IsQuiet (insert_terminal_errors rows) es q = refl
event_of-IsQuiet (insert_anchor row) es q = refl

Extends-events : {h h' : History} → Extends h h' → events h' ≡ events h
Extends-events same = refl
Extends-events (more {h'} w q e) = event_of-IsQuiet w (events h') q ∙ Extends-events e

-- What was stored after `h` is a run of the machine to the phase `s`.
pub record Trace (id : Text) (h h' : History) (s : Phase) : Type 0 where
  pub trace : List Event
  pub path : Course id trace s
  pub shape : events h' ≡ trace ++ events h

-- A run that returns has published the attempt that it returns.
abbrev pub Lives : Text → History → Result CensusFault Text × History → Type 0
Lives id h (ok returned, h') = (returned ≡ id) × Trace id h h' announced
Lives id h (err fault, h') = (s : Phase) × Trace id h h' s

module _ (id : Text) (h : History) where
  began :
      (row : AttemptRow)
      → row.scope.attempt_id ≡ id
      → row.status ≡ started
      → Trace id h (insert_attempt_state row ∷ h) running
  began row is_id is_started = record {
    trace = state id started ∷ [];
    path = step start begin;
    shape = cc;
  }

  still : {h' k : History} {s : Phase} → Trace id h h' s → Extends h' k → Trace id h k s
  still t e = record { trace = t.trace; path = t.path; shape = Extends-events e ∙ t.shape }

  then_state :
      {h' : History} {s s' : Phase} (row : AttemptRow) (status : Status)
      → row.scope.attempt_id ≡ id
      → row.status ≡ status
      → Trace id h h' s
      → Move id s (state id status) s'
      → Trace id h (insert_attempt_state row ∷ h') s'
  then_state row status is_id is_status t move = record {
    trace = state id status ∷ t.trace;
    path = step t.path move;
    shape = cc (t.shape);
  }

  then_publish :
      {h' : History} (row : PublicationRow)
      → row.scope.attempt_id ≡ id
      → Trace id h h' checked
      → Trace id h (append_publication row ∷ h') announced
  then_publish row is_id t = record {
    trace = publish id ∷ t.trace;
    path = step t.path announce;
    shape = cc (t.shape);
  }

module _ (runner : Runner) (base : AttemptRow) (id : Text) (is_id : base.scope.attempt_id ≡ id)
    (h : History) where
  -- The handler's row, whether it is stored or not.
  broken_Lives :
      {h' : History} {s : Phase} (fault : CensusFault) (a : Answer)
      → Trace id h h' s
      → Move id s (state id failed) broken
      → Lives id h (
          reraise runner fault (
            after_answer a
              (insert_attempt_state (failed_row runner base fault (runner.now h')))
              h'))
  unfolding failed_row
  broken_Lives {h'} fault stored t move = (broken, then_state id h _ failed is_id refl t move)
  broken_Lives {s = s} fault (refused other) t move = (s, t)
  broken_Lives fault (stored_but_raised other) t move =
      (broken, then_state id h _ failed is_id refl t move)

  Verified-Trace : {g k : History} → Trace id h g running → Verified base g k → Trace id h k checked
  Verified-Trace t v = rw (v.shape) (
      then_state id h v.row verified (ap (λ scope. scope.attempt_id) v.scope ∙ is_id) v.status
        (still id h t v.quiet) check)

  Published-Trace :
      {g k : History} → Trace id h g running → Published base g k → Trace id h k announced
  Published-Trace t p = rw (p.shape) (
      then_publish id h p.publication (ap (λ scope. scope.attempt_id) p.agrees.scope ∙ is_id) (
        then_state id h p.row verified (ap (λ scope. scope.attempt_id) p.agrees.row_scope ∙ is_id)
          p.agrees.is_verified (still id h t p.quiet) check))

  settle-Lives :
      {g : History} (r : Result CensusFault (Unit {0}) × History)
      → Trace id h g running
      → Tail runner.db base g r
      → Lives id h (settle runner base r)
  unfolding settle write
  settle-Lives (ok u, h') t p = (is_id, Published-Trace t p)
  settle-Lives (err fault, h') t (inl q) =
      broken_Lives fault (runner.db.answer _ h') (still id h t q) break_running
  settle-Lives (err fault, h') t (inr (inl v)) =
      broken_Lives fault (runner.db.answer _ h') (Verified-Trace t v) break_checked
  settle-Lives (err fault, h') t (inr (inr (p, failing))) =
      broken_Lives fault (runner.db.answer _ h') (Published-Trace t p) break_announced

  started_Lives :
      (a : Answer) (body : Census (Unit {0}))
      → base.status ≡ started
      → Body runner.db base body
      → Lives id h (
          continue
            (after_answer a (insert_attempt_state base) h)
            (λ u k. settle runner base (body k)))
  started_Lives stored body is_started ends =
      settle-Lives (body (insert_attempt_state base ∷ h)) (began id h base is_id is_started)
        (ends.at (insert_attempt_state base ∷ h))
  started_Lives (refused fault) body is_started ends =
      (idle, record { trace = []; path = start; shape = refl })
  started_Lives (stored_but_raised fault) body is_started ends =
      (running, began id h base is_id is_started)

  attempt-Lives :
      (body : Census (Unit {0}))
      → base.status ≡ started
      → Body runner.db base body
      → Lives id h (attempt runner base body h)
  unfolding attempt ◌>>=◌ write
  attempt-Lives body is_started ends =
      started_Lives (runner.db.answer (insert_attempt_state base) h) body is_started ends

Attempted-Lives :
    (runner : Runner) (id : Text) (h : History) (r : Result CensusFault Text × History)
    → Attempted runner id h r
    → Lives id h r
Attempted-Lives runner id h r (unstarted fault e) =
    rw e (idle, record { trace = []; path = start; shape = refl })
Attempted-Lives runner id h r (begun base body is_id is_started ends e) =
    rw e (attempt-Lives runner base id is_id h body is_started ends)

module _ (runner : Runner) (job : JobConfig) (date : ℕ) (anchor : BlockRef) (h : History) where
  -- Every run of `run_token`, whatever the collectors return and the database answers, stores rows
  -- of attempts and publications that are a run of the machine of the one attempt with the
  -- identifier drawn at its start: nothing, or `started`, then `verified`, then the publication,
  -- with `failed` after any of these and nothing after it. A run that returns, returns that
  -- identifier and has gone through all three.
  pub run_token-Lives :
      (target : TokenConfig) → Lives (runner.uuid4 h) h (run_token runner job target date anchor h)
  run_token-Lives target =
      Attempted-Lives runner _ h _ (run_token-Attempted runner job date anchor h target)

  -- The same for `run_pool`.
  pub run_pool-Lives :
      (target : PoolConfig) → Lives (runner.uuid4 h) h (run_pool runner job target date anchor h)
  run_pool-Lives target =
      Attempted-Lives runner _ h _ (run_pool-Attempted runner job date anchor h target)
