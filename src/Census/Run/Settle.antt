-- ===== src/Census/Run/Settle.antt =====
-- How a run of core/census.py ends, success and failure, where the database stores what it is given.
use rpc_state_indexer.Prelude.{
  ℕ, List, [], ◌∷◌, ◌≡◌, refl, ap, ◌∙◌, ◌⊎◌, inl, inr, Result, ok, err, take,
}
use rpc_state_indexer.Prelude.Text.{Text}
use rpc_state_indexer.Prelude.Exec.{◌>>=◌, continue}
use rpc_state_indexer.Domain.{BlockRef}
use rpc_state_indexer.Storage.Repository.{
  AttemptRow, PublicationRow, failed, Write, History, CensusFault, Database, Answer, stored,
  refused, stored_but_raised, insert_attempt_state, insert_universe_members, insert_token_balances,
  insert_token_scalars, insert_pool_balances, insert_pool_cl_state, insert_pool_ticks,
  insert_terminal_errors, append_publication, insert_anchor,
}
use rpc_state_indexer.Census.Base.{
  JobConfig, TokenConfig, PoolConfig, Runner, Census, after_answer, write, error_class, error_text,
}
use rpc_state_indexer.Census.Run.{failed_row, reraise, settle, attempt, run_token, run_pool}
use rpc_state_indexer.Census.Run.Quiet.{IsQuiet, Extends, same, more}
use rpc_state_indexer.Census.Run.Tail.{Tail, Body}
use rpc_state_indexer.Census.Run.Attempted.{
  Attempted, unstarted, begun, run_token-Attempted, run_pool-Attempted,
}

abbrev pub published_by : Write → List PublicationRow → List PublicationRow
published_by (append_publication row) ps = row ∷ ps
published_by (insert_attempt_state row) ps = ps
published_by (insert_universe_members rows) ps = ps
published_by (insert_token_balances rows i) ps = ps
published_by (insert_token_scalars rows i) ps = ps
published_by (insert_pool_balances rows i) ps = ps
published_by (insert_pool_cl_state row c) ps = ps
published_by (insert_pool_ticks rows i) ps = ps
published_by (insert_terminal_errors rows) ps = ps
published_by (insert_anchor row) ps = ps

-- What is published, the latest first.
abbrev pub publications : History → List PublicationRow
publications [] = []
publications (w ∷ h) = published_by w (publications h)

published_by-IsQuiet : (w : Write) (ps : List PublicationRow) → IsQuiet w → published_by w ps ≡ ps
published_by-IsQuiet (insert_attempt_state row) ps q = absurd q
published_by-IsQuiet (append_publication row) ps q = absurd q
published_by-IsQuiet (insert_universe_members rows) ps q = refl
published_by-IsQuiet (insert_token_balances rows i) ps q = refl
published_by-IsQuiet (insert_token_scalars rows i) ps q = refl
published_by-IsQuiet (insert_pool_balances rows i) ps q = refl
published_by-IsQuiet (insert_pool_cl_state row c) ps q = refl
published_by-IsQuiet (insert_pool_ticks rows i) ps q = refl
published_by-IsQuiet (insert_terminal_errors rows) ps q = refl
published_by-IsQuiet (insert_anchor row) ps q = refl

Extends-publications : {h h' : History} → Extends h h' → publications h' ≡ publications h
Extends-publications same = refl
Extends-publications (more {h'} w q e) =
    published_by-IsQuiet w (publications h') q ∙ Extends-publications e

-- The last row says why the attempt failed, and nothing is published.
pub record Failed (id : Text) (fault : CensusFault) (h h' : History) : Type 0 where
  pub row : AttemptRow
  pub before : History
  pub shape : h' ≡ insert_attempt_state row ∷ before
  pub status : row.status ≡ failed
  pub attempt_id : row.scope.attempt_id ≡ id
  pub names_fault : row.error_class ≡ error_class fault
  pub tells_fault : row.error_message ≡ take 4096 (error_text fault)
  pub unpublished : publications h' ≡ publications h

-- One publication more, of the attempt.
pub record Succeeded (id : Text) (h h' : History) : Type 0 where
  pub row : PublicationRow
  pub attempt_id : row.scope.attempt_id ≡ id
  pub published : publications h' ≡ row ∷ publications h

abbrev pub Settles : Text → History → Result CensusFault Text × History → Type 0
Settles id h (ok returned, h') = Succeeded id h h'
Settles id h (err fault, h') = (h' ≡ h) ⊎ Failed id fault h h'

-- The database stores every insertion.
abbrev pub Storing : Database → Type 0
Storing db = (w : Write) (k : History) → db.answer w k ≡ stored

module _ (runner : Runner) (base : AttemptRow) (id : Text) (is_id : base.scope.attempt_id ≡ id)
    (h : History) (storing : Storing runner.db) where
  fails :
      (h' : History) (fault : CensusFault) (a : Answer)
      → a ≡ stored
      → publications h' ≡ publications h
      → Settles id h (
          reraise runner fault (
            after_answer a
              (insert_attempt_state (failed_row runner base fault (runner.now h')))
              h'))
  unfolding failed_row
  fails h' fault stored e unpublished = inr (record {
    row = failed_row runner base fault (runner.now h');
    before = h';
    shape = refl;
    status = refl;
    attempt_id = is_id;
    names_fault = refl;
    tells_fault = refl;
    unpublished = unpublished;
  })
  fails h' fault (refused other) e unpublished = absurd (cc e)
  fails h' fault (stored_but_raised other) e unpublished = absurd (cc e)

  settle-Settles :
      (g : History) (r : Result CensusFault (Unit {0}) × History)
      → publications g ≡ publications h
      → Tail runner.db base g r
      → Settles id h (settle runner base r)
  unfolding settle write
  settle-Settles g (ok u, h') same_until p = record {
    row = p.publication;
    attempt_id = ap (λ scope. scope.attempt_id) p.agrees.scope ∙ is_id;
    published = cc (ap publications p.shape, Extends-publications p.quiet);
  }
  settle-Settles g (err fault, h') same_until (inl q) =
      fails h' fault (runner.db.answer _ h') (storing _ h') (Extends-publications q ∙ same_until)
  settle-Settles g (err fault, h') same_until (inr (inl v)) =
      fails h' fault (runner.db.answer _ h') (storing _ h')
        (cc (ap publications v.shape, Extends-publications v.quiet))
  settle-Settles g (err fault, h') same_until (inr (inr (p, (w, k, not_stored)))) =
      absurd (not_stored (storing w k))

  started_Settles :
      (a : Answer) (body : Census (Unit {0}))
      → a ≡ stored
      → Body runner.db base body
      → Settles id h (
          continue
            (after_answer a (insert_attempt_state base) h)
            (λ u k. settle runner base (body k)))
  started_Settles stored body e ends =
      settle-Settles (insert_attempt_state base ∷ h) (body (insert_attempt_state base ∷ h)) refl
        (ends.at (insert_attempt_state base ∷ h))
  started_Settles (refused fault) body e ends = absurd (cc e)
  started_Settles (stored_but_raised fault) body e ends = absurd (cc e)

  attempt-Settles :
      (body : Census (Unit {0}))
      → Body runner.db base body
      → Settles id h (attempt runner base body h)
  unfolding attempt ◌>>=◌ write
  attempt-Settles body ends =
      started_Settles (runner.db.answer (insert_attempt_state base) h) body
        (storing (insert_attempt_state base) h) ends

module _ (runner : Runner) (storing : Storing runner.db) where
  Attempted-Settles :
      (id : Text) (h : History) (r : Result CensusFault Text × History)
      → Attempted runner id h r
      → Settles id h r
  Attempted-Settles id h r (unstarted fault e) = rw e (inl refl)
  Attempted-Settles id h r (begun base body is_id is_started ends e) =
      rw e (attempt-Settles runner base id is_id h storing body ends)

  -- Where the database stores every insertion: a run of `run_token` that returns has published one
  -- publication of its attempt more than before; one that raises has either stored nothing at all,
  -- or its last insertion is a row `failed` of the attempt with the exception's class and the first
  -- 4096 characters of its message, and nothing is published.
  pub run_token-Settles :
      (job : JobConfig) (target : TokenConfig) (date : ℕ) (anchor : BlockRef) (h : History)
      → Settles (runner.uuid4 h) h (run_token runner job target date anchor h)
  run_token-Settles job target date anchor h =
      Attempted-Settles _ h _ (run_token-Attempted runner job date anchor h target)

  -- The same for `run_pool`.
  pub run_pool-Settles :
      (job : JobConfig) (target : PoolConfig) (date : ℕ) (anchor : BlockRef) (h : History)
      → Settles (runner.uuid4 h) h (run_pool runner job target date anchor h)
  run_pool-Settles job target date anchor h =
      Attempted-Settles _ h _ (run_pool-Attempted runner job date anchor h target)
