-- ===== src/Census/Run/Sound.antt =====
-- What holds of the stored rows between two operations of core/census.py.
use rpc_state_indexer.Prelude.{
  ℕ, [], ◌∷◌, ◌≡◌, refl, sym, ◌∙◌, inl, inr, Result, ok, err, Option, none, some,
}
use rpc_state_indexer.Prelude.Text.{Text}
use rpc_state_indexer.Prelude.Exec.{◌>>=◌, continue}
use rpc_state_indexer.Domain.{BlockRef}
use rpc_state_indexer.Anchors.{ResolvedAnchor}
use rpc_state_indexer.Storage.Repository.{
  AttemptRow, PublicationRow, Write, History, CensusFault, Answer, stored, refused,
  stored_but_raised, insert_attempt_state, insert_universe_members, insert_token_balances,
  insert_token_scalars, insert_pool_balances, insert_pool_cl_state, insert_pool_ticks,
  insert_terminal_errors, append_publication, insert_anchor,
}
use rpc_state_indexer.Census.Base.{
  JobConfig, TokenConfig, PoolConfig, Runner, Census, after_answer, write,
}
use rpc_state_indexer.Census.Anchor.{after_existing, persist}
use rpc_state_indexer.Census.Run.{reraise, settle, attempt, run_token, run_pool}
use rpc_state_indexer.Census.Run.Quiet.{
  IsQuiet, Extends, same, more, Quiet, Quiet-pure, Quiet-lift, Quiet-read, Quiet-write, Quiet-bind,
}
use rpc_state_indexer.Census.Run.Tail.{Agrees, Verified, Published, Tail, Body}
use rpc_state_indexer.Census.Run.Attempted.{
  Attempted, unstarted, begun, run_token-Attempted, run_pool-Attempted,
}

-- The row just before the publication makes its attempt verified, and says what it says.
pub record Backed (p : PublicationRow) (h : History) : Type 0 where
  pub row : AttemptRow
  pub before : History
  pub shape : h ≡ insert_attempt_state row ∷ before
  pub agrees : Agrees row row p

abbrev pub SoundWrite : Write → History → Type 0
SoundWrite (append_publication p) h = Backed p h
SoundWrite (insert_attempt_state row) h = Unit
SoundWrite (insert_universe_members rows) h = Unit
SoundWrite (insert_token_balances rows i) h = Unit
SoundWrite (insert_token_scalars rows i) h = Unit
SoundWrite (insert_pool_balances rows i) h = Unit
SoundWrite (insert_pool_cl_state row c) h = Unit
SoundWrite (insert_pool_ticks rows i) h = Unit
SoundWrite (insert_terminal_errors rows) h = Unit
SoundWrite (insert_anchor row) h = Unit

-- Every publication is backed by the row before it.
abbrev pub Sound : History → Type 0
Sound [] = Unit
Sound (w ∷ h) = SoundWrite w h × Sound h

-- What the program stores by any operations in a row, each with what it raises ignored.
pub data Reach (runner : Runner) : History → Type 0 where
  nothing : Reach runner []
  after_token :
      {h : History} (job : JobConfig) (target : TokenConfig) (date : ℕ) (anchor : BlockRef)
      → Reach runner h
      → Reach runner (run_token runner job target date anchor h).1
  after_pool :
      {h : History} (job : JobConfig) (target : PoolConfig) (date : ℕ) (anchor : BlockRef)
      → Reach runner h
      → Reach runner (run_pool runner job target date anchor h).1
  after_persist :
      {h : History} (chain_id : ℕ) (resolved : ResolvedAnchor)
      → Reach runner h
      → Reach runner (persist runner chain_id resolved h).1

SoundWrite-IsQuiet : (w : Write) (h : History) → IsQuiet w → SoundWrite w h
SoundWrite-IsQuiet (insert_attempt_state row) h q = tt
SoundWrite-IsQuiet (append_publication row) h q = absurd q
SoundWrite-IsQuiet (insert_universe_members rows) h q = tt
SoundWrite-IsQuiet (insert_token_balances rows i) h q = tt
SoundWrite-IsQuiet (insert_token_scalars rows i) h q = tt
SoundWrite-IsQuiet (insert_pool_balances rows i) h q = tt
SoundWrite-IsQuiet (insert_pool_cl_state row c) h q = tt
SoundWrite-IsQuiet (insert_pool_ticks rows i) h q = tt
SoundWrite-IsQuiet (insert_terminal_errors rows) h q = tt
SoundWrite-IsQuiet (insert_anchor row) h q = tt

Extends-Sound : {h h' : History} → Sound h → Extends h h' → Sound h'
Extends-Sound s same = s
Extends-Sound s (more {h'} w q e) = (SoundWrite-IsQuiet w h' q, Extends-Sound s e)

Agrees-self : {base v : AttemptRow} {p : PublicationRow} → Agrees base v p → Agrees v v p
Agrees-self a = record {
  is_verified = a.is_verified;
  row_scope = refl;
  scope = a.scope ∙ sym a.row_scope;
  target_kind = a.target_kind;
  integrity_mode = a.integrity_mode;
  config_hash = a.config_hash;
  anchor_block = a.anchor_block;
  anchor_hash = a.anchor_hash;
  universe_hash = a.universe_hash;
  block_reference_kind = a.block_reference_kind;
  result_digest = a.result_digest;
  batches_total = a.batches_total;
  observations_total = a.observations_total;
}

Verified-Sound : {base : AttemptRow} {g h : History} → Sound g → Verified base g h → Sound h
Verified-Sound s v = rw (v.shape) (tt, Extends-Sound s v.quiet)

Published-Sound : {base : AttemptRow} {g h : History} → Sound g → Published base g h → Sound h
Published-Sound s p = rw (p.shape) (
  record { row = p.row; before = p.before; shape = refl; agrees = Agrees-self p.agrees },
  (tt, Extends-Sound s p.quiet),
)

module _ (runner : Runner) (base : AttemptRow) where
  answered_Sound :
      (a : Answer) (row : AttemptRow) (h : History)
      → Sound h
      → Sound (after_answer a (insert_attempt_state row) h).1
  answered_Sound stored row h s = (tt, s)
  answered_Sound (refused fault) row h s = s
  answered_Sound (stored_but_raised fault) row h s = (tt, s)

  reraise-Sound :
      (fault : CensusFault) (r : Result CensusFault (Unit {0}) × History)
      → Sound r.1
      → Sound (reraise runner fault r).1
  reraise-Sound fault (ok u, h) s = s
  reraise-Sound fault (err other, h) s = s

  Tail-Sound :
      (g : History) (r : Result CensusFault (Unit {0}) × History)
      → Sound g
      → Tail runner.db base g r
      → Sound r.1
  Tail-Sound g (ok u, h) s p = Published-Sound s p
  Tail-Sound g (err fault, h) s (inl q) = Extends-Sound s q
  Tail-Sound g (err fault, h) s (inr (inl v)) = Verified-Sound s v
  Tail-Sound g (err fault, h) s (inr (inr (p, failing))) = Published-Sound s p

  settle-Sound :
      (r : Result CensusFault (Unit {0}) × History) → Sound r.1 → Sound (settle runner base r).1
  unfolding settle write
  settle-Sound (ok u, h) s = s
  settle-Sound (err fault, h) s =
      reraise-Sound fault _ (answered_Sound (runner.db.answer _ h) _ h s)

  started_Sound :
      (a : Answer) (h : History) (body : Census (Unit {0}))
      → Sound h
      → Body runner.db base body
      → Sound
          (continue
            (after_answer a (insert_attempt_state base) h)
            (λ u k. settle runner base (body k))).1
  started_Sound stored h body s ends =
      let g = insert_attempt_state base ∷ h in
      settle-Sound (body g) (Tail-Sound g (body g) (tt, s) (ends.at g))
  started_Sound (refused fault) h body s ends = s
  started_Sound (stored_but_raised fault) h body s ends = (tt, s)

  attempt-Sound :
      (h : History) (body : Census (Unit {0}))
      → Sound h
      → Body runner.db base body
      → Sound (attempt runner base body h).1
  unfolding attempt ◌>>=◌ write
  attempt-Sound h body s ends =
      started_Sound (runner.db.answer (insert_attempt_state base) h) h body s ends

Attempted-Sound :
    (runner : Runner) (id : Text) (h : History) (r : Result CensusFault Text × History)
    → Sound h
    → Attempted runner id h r
    → Sound r.1
Attempted-Sound runner id h r s (unstarted fault e) = rw e s
Attempted-Sound runner id h r s (begun base body is_id is_started ends e) =
    rw e (attempt-Sound runner base h body s ends)

after_existing-Quiet :
    (runner : Runner) (chain_id : ℕ) (resolved : ResolvedAnchor) (existing : Option BlockRef)
    → Quiet (after_existing runner chain_id resolved existing)
after_existing-Quiet runner chain_id resolved (some existing) =
    search (Quiet-bind, Quiet-lift, Quiet-pure)
after_existing-Quiet runner chain_id resolved none =
    search (Quiet-bind, Quiet-read, Quiet-write, Quiet-pure, tt) depth 8

persist-Quiet :
    (runner : Runner) (chain_id : ℕ) (resolved : ResolvedAnchor)
    → Quiet (persist runner chain_id resolved)
unfolding persist
persist-Quiet runner chain_id resolved =
    Quiet-bind _ _ (Quiet-read _) (after_existing-Quiet runner chain_id resolved)

-- Whatever operations have run, in any order, and whatever the database answered: every publication
-- that is stored came directly after a row `verified` of its own attempt, with the same target,
-- configuration, anchor, universe, digest and counts.
pub Reach-Sound : (runner : Runner) {h : History} → Reach runner h → Sound h
Reach-Sound runner nothing = tt
Reach-Sound runner (after_token {h} job target date anchor r) =
    Attempted-Sound runner _ h _ (Reach-Sound runner r)
      (run_token-Attempted runner job date anchor h target)
Reach-Sound runner (after_pool {h} job target date anchor r) =
    Attempted-Sound runner _ h _ (Reach-Sound runner r)
      (run_pool-Attempted runner job date anchor h target)
Reach-Sound runner (after_persist {h} chain_id resolved r) =
    Extends-Sound (Reach-Sound runner r) ((persist-Quiet runner chain_id resolved).at h)
