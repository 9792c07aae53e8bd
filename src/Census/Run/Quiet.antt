-- ===== src/Census/Run/Quiet.antt =====
-- Which methods of core/census.py leave the attempts and the publications alone: all but the last
-- step of a publication.
use rpc_state_indexer.Prelude.{
  ℕ, suc, Bool, true, false, List, [], ◌∷◌, Option, none, some, Result, ok, err, if◌then◌else◌,
}
use rpc_state_indexer.Prelude.Text.{Text}
use rpc_state_indexer.Prelude.Exec.{pure, lift, ◌>>=◌, continue}
use rpc_state_indexer.Domain.{BlockRef, ExecutorKind, FrozenUniverse}
use rpc_state_indexer.Storage.Digests.{ScalarDigestRow}
use rpc_state_indexer.Storage.Repository.{
  AttemptScope, TargetKind, AttemptRow, Stored, Write, History, CensusFault, Answer, stored,
  refused, stored_but_raised, Database, insert_attempt_state, append_publication,
}
use rpc_state_indexer.Census.Base.{
  Runner, TokenConfig, Collected, CollectionError, TokenCollectionResult, PoolCollectionResult,
  PoolClCollectionResult, Census, after_answer, write, read,
}
use rpc_state_indexer.Census.Persist.{
  unless_empty, persist_universe, persist_errors, insert_chunks, insert_chunked,
  insert_scalar_groups, persist_token_result, persist_pool_result, persist_pool_cl_result,
}
use rpc_state_indexer.Census.Publish.{verified_readback, terminal_errors, publication_checks}
use rpc_state_indexer.Census.Run.{verify_all, verify_token_code}

-- Neither the row of an attempt nor a publication.
abbrev pub IsQuiet : Write → Type 0
IsQuiet (insert_attempt_state row) = ⊥
IsQuiet (append_publication row) = ⊥
IsQuiet _ = Unit

-- The second history is the first with quiet insertions after it.
pub data Extends (h : History) : History → Type 0 where
  same : Extends h h
  more : {h' : History} (w : Write) → IsQuiet w → Extends h h' → Extends h (w ∷ h')

pub Extends-trans : {g h k : History} → Extends g h → Extends h k → Extends g k
Extends-trans a same = a
Extends-trans a (more w q b) = more w q (Extends-trans a b)

pub record Quiet {A : Type 0} (m : Census A) : Type 0 where
  pub at : (h : History) → Extends h (m h).1

pub Quiet-pure : {A : Type 0} (a : A) → Quiet (pure a)
unfolding pure
Quiet-pure a = record { at = λ h. same }

pub Quiet-lift : {A : Type 0} (r : Result CensusFault A) → Quiet (lift r)
unfolding lift
Quiet-lift r = record { at = λ h. same }

pub Quiet-read : {A : Type 0} (select : History → Result CensusFault A) → Quiet (read select)
unfolding read
Quiet-read select = record { at = λ h. same }

after_answer-Extends :
    (a : Answer) (w : Write) (h : History) → IsQuiet w → Extends h (after_answer a w h).1
after_answer-Extends stored w h q = more w q same
after_answer-Extends (refused fault) w h q = same
after_answer-Extends (stored_but_raised fault) w h q = more w q same

pub Quiet-write : (db : Database) (w : Write) → IsQuiet w → Quiet (write db w)
unfolding write
Quiet-write db w q = record { at = λ h. after_answer-Extends (db.answer w h) w h q }

continue-Extends :
    {A B : Type 0} {h : History} (r : Result CensusFault A × History) (f : A → Census B)
    → Extends h r.1
    → ((a : A) → Quiet (f a))
    → Extends h (continue r f).1
continue-Extends (ok a, h') f e q = Extends-trans e ((q a).at h')
continue-Extends (err fault, h') f e q = e

pub Quiet-bind :
    {A B : Type 0} (m : Census A) (f : A → Census B)
    → Quiet m
    → ((a : A) → Quiet (f a))
    → Quiet (m >>= f)
unfolding ◌>>=◌
Quiet-bind m f qm qf = record { at = λ h. continue-Extends (m h) f (qm.at h) qf }

Quiet-if : {A : Type 0} (b : Bool) (m n : Census A) → Quiet m → Quiet n → Quiet (if b then m else n)
Quiet-if true m n qm qn = qm
Quiet-if false m n qm qn = qn

ruleset quiet_rules = (Quiet-pure, Quiet-lift, Quiet-read, Quiet-write, Quiet-bind, Quiet-if)

module _ (runner : Runner) (scope : AttemptScope) where
  Quiet-unless_empty :
      {A : Type 0} (insert : List A → Census (Unit {0}))
      → ((rows : List A) → Quiet (insert rows))
      → (rows : List A) → Quiet (unless_empty runner scope insert rows)
  Quiet-unless_empty insert q [] = Quiet-pure tt
  Quiet-unless_empty insert q (row ∷ rows) = q (row ∷ rows)

  pub persist_universe-Quiet :
      (universe : FrozenUniverse) → Quiet (persist_universe runner scope universe)
  unfolding persist_universe
  persist_universe-Quiet universe = search (quiet_rules, Quiet-unless_empty, tt)

  persist_errors-Quiet :
      (kind : TargetKind) (errors : List CollectionError)
      → Quiet (persist_errors runner scope kind errors)
  unfolding persist_errors
  persist_errors-Quiet kind errors = search (quiet_rules, Quiet-unless_empty, tt)

  insert_chunks-Quiet :
      {A : Type 0} (insert : List A → ℕ → Write)
      → ((rows : List A) (i : ℕ) → IsQuiet (insert rows i))
      → (i : ℕ) (chunks : List (List A)) → Quiet (insert_chunks runner scope insert i chunks)
  unfolding insert_chunks
  insert_chunks-Quiet insert q i [] = Quiet-pure tt
  insert_chunks-Quiet insert q i (rows ∷ chunks) =
      Quiet-bind _ _ (Quiet-write _ _ (q rows i)) (λ t. insert_chunks-Quiet insert q (suc i) chunks)

  insert_chunked-Quiet :
      {A : Type 0} (insert : List A → ℕ → Write)
      → ((rows : List A) (i : ℕ) → IsQuiet (insert rows i))
      → (rows : List A) → Quiet (insert_chunked runner scope insert rows)
  unfolding insert_chunked
  insert_chunked-Quiet insert q rows =
      Quiet-bind _ _ (Quiet-lift _) (λ chunks. insert_chunks-Quiet insert q 0 chunks)

  insert_scalar_groups-Quiet :
      (groups : List (ℕ × List (Stored ScalarDigestRow)))
      → Quiet (insert_scalar_groups runner scope groups)
  unfolding insert_scalar_groups
  insert_scalar_groups-Quiet [] = Quiet-pure tt
  insert_scalar_groups-Quiet ((sequence, rows) ∷ groups) =
      Quiet-bind _ _ (Quiet-write _ _ tt) (λ t. insert_scalar_groups-Quiet groups)

  ruleset persist_rules =
      (quiet_rules, persist_errors-Quiet, insert_chunked-Quiet, insert_scalar_groups-Quiet)

  pub persist_token_result-Quiet :
      (result : TokenCollectionResult) → Quiet (persist_token_result runner scope result)
  unfolding persist_token_result
  persist_token_result-Quiet result = search (persist_rules, tt) depth 12

  pub persist_pool_result-Quiet :
      (result : PoolCollectionResult) → Quiet (persist_pool_result runner scope result)
  unfolding persist_pool_result
  persist_pool_result-Quiet result = search (persist_rules, tt) depth 12

  pub persist_pool_cl_result-Quiet :
      (result : PoolClCollectionResult) → Quiet (persist_pool_cl_result runner scope result)
  unfolding persist_pool_cl_result
  persist_pool_cl_result-Quiet result = search (persist_rules, tt) depth 12

pub verified_readback-Quiet :
    (select : Bool → History → Result CensusFault Text) (expected : Text)
    → Quiet (verified_readback select expected)
unfolding verified_readback
verified_readback-Quiet select expected = search quiet_rules

module _ (runner : Runner) (base : AttemptRow) where
  terminal_errors-Quiet : (expected : ℕ) → Quiet (terminal_errors runner base expected)
  unfolding terminal_errors
  terminal_errors-Quiet expected = search quiet_rules

  pub publication_checks-Quiet :
      (universe : Option FrozenUniverse) (result : Collected) (readback digest : Text)
      → Quiet (publication_checks runner base universe result readback digest)
  unfolding publication_checks
  publication_checks-Quiet none result readback digest = search (quiet_rules, terminal_errors-Quiet)
  publication_checks-Quiet (some universe) result readback digest =
      search (quiet_rules, terminal_errors-Quiet, verified_readback-Quiet)

module _ (runner : Runner) where
  pub verify_all-Quiet :
      (assets : List Text) (anchor : BlockRef) → Quiet (verify_all runner assets anchor)
  verify_all-Quiet [] anchor = Quiet-pure tt
  verify_all-Quiet (address ∷ rest) anchor =
      Quiet-bind _ _ (Quiet-lift _) (λ t. verify_all-Quiet rest anchor)

  pub verify_token_code-Quiet :
      (target : TokenConfig) (anchor : BlockRef) (kind : ExecutorKind)
      → Quiet (verify_token_code runner target anchor kind)
  unfolding verify_token_code
  verify_token_code-Quiet target anchor kind = search quiet_rules
