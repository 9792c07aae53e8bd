-- ===== src/Census/Run/Inversion.antt =====
-- What a step of the publication in core/census.py that returns has read and tested.
use rpc_state_indexer.Prelude.{
  ℕ, Bool, true, false, List, [], ◌∷◌, ◌++◌, ◌≡◌, refl, inl, inr, Result, ok, err, arith, length,
  all, ◌==◌, ==_iff, Bool-cases, if◌then◌else◌,
}
use rpc_state_indexer.Prelude.Text.{Text, text_eq, text_eq_iff}
use rpc_state_indexer.Prelude.Exec.{◌>>=◌, continue, pure, lift}
use rpc_state_indexer.Domain.{IntegrityResult}
use rpc_state_indexer.Storage.Repository.{AttemptRow, History, CensusFault}
use rpc_state_indexer.Census.Base.{
  Runner, Collected, CollectionBatchEvidence, CollectionError, is_verified, no_errors,
  batch_verified, check_passed, read,
}
use rpc_state_indexer.Census.Evidence.{batches_verified}
use rpc_state_indexer.Census.Publish.{
  Checks, note, note_integrity, conclude, common_checks, verified_readback, terminal_errors,
}

append-ne-nil : (front : List Text) (t : Text) → front ++ t ∷ [] ≡ [] → ⊥
append-ne-nil [] t e = cc
append-ne-nil (f ∷ fs) t e = cc

pub lifted :
    {A : Type 0} (r : Result CensusFault A) {h h' : History} {a : A}
    → lift r h ≡ (ok a, h')
    → (r ≡ ok a) × (h' ≡ h)
unfolding lift
lifted r e = (cc, cc)

-- The value was read at `h`, consistently or not.
abbrev pub ReadAt : {A : Type 0} → (Bool → History → Result CensusFault A) → A → History → Type 0
ReadAt select a h = (consistent : Bool) × (select consistent h ≡ ok a)

-- A read, and one that is consistent where the test fails.
pub retried :
    {A : Type 0} (select : Bool → History → Result CensusFault A) (test : A → Bool) {h h' : History}
    {a : A} (r : Result CensusFault A)
    → select false h ≡ r
    → continue (r, h) (λ first. if test first then pure first else read (select true)) ≡ (ok a, h')
    → ReadAt select a h × (h' ≡ h)
unfolding pure read
retried select test (ok first) seen e = elim (Bool-cases (test first)) [
  | inl holds ↦ let e' = rw holds at e in ((false, cc), cc)
  | inr fails ↦ let e' = rw fails at e in ((true, cc), cc)
]
retried select test (err fault) seen e = absurd (cc e)

pub verified_readback-ReadAt :
    (select : Bool → History → Result CensusFault Text) (expected : Text) {h h' : History}
    {a : Text}
    → verified_readback select expected h ≡ (ok a, h')
    → ReadAt select a h × (h' ≡ h)
unfolding verified_readback ◌>>=◌ read
verified_readback-ReadAt select expected {h} e =
    retried select (λ first. text_eq first expected) (select false h) refl e

pub terminal_errors-ReadAt :
    (runner : Runner) (base : AttemptRow) (expected : ℕ) {h h' : History} {n : ℕ}
    → terminal_errors runner base expected h ≡ (ok n, h')
    → ReadAt (runner.db.error_count base.scope) n h × (h' ≡ h)
unfolding terminal_errors ◌>>=◌ read
terminal_errors-ReadAt runner base expected {h} e =
    retried (runner.db.error_count base.scope) (λ count. count == expected)
      (runner.db.error_count base.scope false h) refl e

-- Nothing has failed in the end only if nothing failed before and the test holds.
pub note_nil :
    (b : Bool) (good bad : Text) (c : Checks)
    → (note b good bad c).failed ≡ []
    → (b ≡ true) × (c.failed ≡ [])
unfolding note
note_nil true good bad c e = (refl, e)
note_nil false good bad c e = absurd (append-ne-nil c.failed bad e)

note_integrity_nil :
    (checks : List IntegrityResult) (c : Checks)
    → (note_integrity checks c).failed ≡ []
    → (all check_passed checks ≡ true) × (c.failed ≡ [])
unfolding note_integrity
note_integrity_nil [] c e = (refl, e)
note_integrity_nil (check ∷ checks) c e =
    let (rest, e') = note_integrity_nil checks _ e in
    let (here, e'') = note_nil check.passed _ _ c e' in (rw here rest, e'')

pub common_checks_nil :
    (count : ℕ) (result : Collected) (readback digest : Text)
    → (common_checks count result readback digest).failed ≡ []
    → (readback ≡ digest)
      × (count ≡ 0)
      × (all batch_verified result.batches ≡ true)
      × (all check_passed result.integrity_checks ≡ true)
unfolding common_checks
common_checks_nil count result readback digest e =
    let (same_digest, e1) = note_nil (text_eq readback digest) _ _ _ e in
    let (passed, e2) = note_integrity_nil result.integrity_checks _ e1 in
    let (batches, e3) = note_nil (all batch_verified result.batches) _ _ _ e2 in
    let (none_left, e4) = note_nil (count == 0) _ _ _ e3 in
    ((text_eq_iff readback digest).0 same_digest, (==_iff count 0).0 none_left, batches, passed)

pub concluded :
    (failed : List Text) (success : Bool) (passed : List Text) {checks : List Text}
    → conclude failed success passed ≡ ok checks
    → (failed ≡ []) × (success ≡ true)
concluded [] true passed e = (refl, refl)
concluded [] false passed e = absurd (cc e)
concluded (f ∷ fs) success passed e = absurd (cc e)

no_errors_nil : (errors : List CollectionError) → no_errors errors ≡ true → errors ≡ []
no_errors_nil [] e = refl
no_errors_nil (x ∷ xs) e = absurd (cc e)

pub verified_no_errors : (result : Collected) → is_verified result ≡ true → result.errors ≡ []
unfolding is_verified
verified_no_errors result e = no_errors_nil result.errors (ground arith)

pub batches_verified-all :
    (batches : List CollectionBatchEvidence)
    → all batch_verified batches ≡ true
    → batches_verified batches ≡ length batches
unfolding batches_verified
batches_verified-all [] e = refl
batches_verified-all (b ∷ bs) e = ground (arith, batches_verified-all bs)
