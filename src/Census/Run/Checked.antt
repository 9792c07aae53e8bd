-- ===== src/Census/Run/Checked.antt =====
-- What has been checked when a token of core/census.py is published.
use mathlib.Core.Path.{subst}
use rpc_state_indexer.Prelude.{
  ℕ, ◌+◌, ◌≤◌, Bool, true, List, [], ◌∷◌, ◌≡◌, refl, ap, ◌∙◌, inl, inr, Result, ok, Option, some,
  arith, length, all, Bool-cases,
}
use rpc_state_indexer.Prelude.Text.{Text, text_eq, text_eq_iff}
use rpc_state_indexer.Prelude.Exec.{lift, bind-returns}
use rpc_state_indexer.Domain.{
  IntegrityMode, full_supply, scaled_full_supply, scoped, pool_assets, cl_liquidity, FrozenUniverse,
  BalanceRow,
}
use rpc_state_indexer.Storage.Repository.{
  AttemptRow, PublicationRow, verified, History, CensusFault, Answer, stored, refused,
  stored_but_raised, Write, Database, insert_attempt_state, append_publication,
  readback_universe_digest, readback_token_digest,
}
use rpc_state_indexer.Census.Base.{
  Runner, Collected, TokenCollectionResult, batch_verified, check_passed, token_digest,
  after_answer, write, read,
}
use rpc_state_indexer.Census.Publish.{
  uint256_max, verified_readback, any_missing, sum_scaled, sum_raw, bounded, observed_supply,
  terminal_errors, publication_checks, verified_row, publication_row, conclude_attempt,
  publish_token,
}
use rpc_state_indexer.Census.Run.Inversion.{
  lifted, ReadAt, verified_readback-ReadAt, terminal_errors-ReadAt, note_nil, common_checks_nil,
  concluded, verified_no_errors, batches_verified-all,
}

-- What the checks of a token's result have found at `h`.
pub record Clean (runner : Runner) (base : AttemptRow) (universe : FrozenUniverse)
    (result : Collected) (h : History) : Type 0 where
  pub none_stored : ReadAt (runner.db.error_count base.scope) 0 h
  pub no_errors : result.errors ≡ []
  pub all_verified : all batch_verified result.batches ≡ true
  pub all_passed : all check_passed result.integrity_checks ≡ true
  pub universe_read :
      ReadAt (readback_universe_digest runner.db base.scope) universe.universe_hash h

moved :
    {A : Type 0} (select : Bool → History → Result CensusFault A) {a b : A} {k h : History}
    → ReadAt select a k
    → a ≡ b
    → k ≡ h
    → ReadAt select b h
moved select (consistent, got) same_value same_history = (consistent, cc)

publication_checks-Clean :
    (runner : Runner) (base : AttemptRow) (universe : FrozenUniverse) (result : Collected)
    (readback digest : Text) {h h' : History} {checks : List Text}
    → publication_checks runner base (some universe) result readback digest h ≡ (ok checks, h')
    → Clean runner base universe result h × (readback ≡ digest) × (h' ≡ h)
unfolding publication_checks
publication_checks-Clean runner base universe result readback digest {h} e =
    let (count, h1, e1, f1) =
      bind-returns (terminal_errors runner base (length result.errors)) _ e in
    let (counted, stays1) = terminal_errors-ReadAt runner base (length result.errors) e1 in
    let (seen, h2, e2, f2) = bind-returns (verified_readback _ _) _ f1 in
    let (universe_seen, stays2) = verified_readback-ReadAt _ universe.universe_hash e2 in
    let (done, stays3) = lifted _ f2 in
    let (nothing_failed, success) = concluded _ _ _ done in
    let (same_universe, rest) =
      note_nil (text_eq seen universe.universe_hash) _ _ _ nothing_failed in
    let (same_digest, zero_count, batches, passed) =
      common_checks_nil count result readback digest rest in
    (
      record {
        none_stored = moved (runner.db.error_count base.scope) counted zero_count refl;
        no_errors = verified_no_errors result success;
        all_verified = batches;
        all_passed = passed;
        universe_read =
            moved (readback_universe_digest runner.db base.scope) universe_seen
              ((text_eq_iff seen universe.universe_hash).0 same_universe) stays1;
      },
      same_digest,
      stays3 ∙ stays2 ∙ stays1,
    )

-- The sum of the balances that the mode compares.
abbrev pub observed_of : IntegrityMode → List BalanceRow → ℕ
observed_of scaled_full_supply rows = sum_scaled rows
observed_of full_supply rows = sum_raw rows
observed_of scoped rows = sum_raw rows
observed_of pool_assets rows = sum_raw rows
observed_of cl_liquidity rows = sum_raw rows

bounded_lem :
    (sum : ℕ) (supply : Option ℕ) {amounts : ℕ × Option ℕ}
    → bounded sum supply ≡ ok amounts
    → (amounts.0 ≡ sum) × (sum ≤ uint256_max)
bounded_lem sum supply e = ground arith

observed_supply_lem :
    (mode : IntegrityMode) (result : TokenCollectionResult) {amounts : ℕ × Option ℕ}
    → observed_supply mode result ≡ ok amounts
    → (amounts.0 ≡ observed_of mode result.balances)
      × (observed_of mode result.balances ≤ uint256_max)
unfolding observed_supply
observed_supply_lem scaled_full_supply result e = elim (Bool-cases (any_missing result.balances)) [
  | inl missing ↦ absurd (cc (rw missing at e))
  | inr complete ↦ bounded_lem _ _ (rw complete at e)
]
observed_supply_lem full_supply result e = bounded_lem _ _ e
observed_supply_lem scoped result e = bounded_lem _ _ e
observed_supply_lem pool_assets result e = bounded_lem _ _ e
observed_supply_lem cl_liquidity result e = bounded_lem _ _ e

have_read :
    {A : Type 0} (select : History → Result CensusFault A) {h h' : History} {a : A}
    → read select h ≡ (ok a, h')
    → (select h ≡ ok a) × (h' ≡ h)
unfolding read
have_read select e = (cc, cc)

answered :
    (a : Answer) (w : Write) {h h' : History} {u : Unit {0}}
    → after_answer a w h ≡ (ok u, h')
    → h' ≡ w ∷ h
answered stored w e = cc
answered (refused fault) w e = absurd (cc e)
answered (stored_but_raised fault) w e = absurd (cc e)

wrote :
    (db : Database) (w : Write) {h h' : History} {u : Unit {0}}
    → write db w h ≡ (ok u, h')
    → h' ≡ w ∷ h
unfolding write
wrote db w {h} e = answered (db.answer w h) w e

-- What a publication of a token has stored.
pub record TokenPublished (runner : Runner) (base : AttemptRow) (universe : FrozenUniverse)
    (result : TokenCollectionResult) (h h' : History) : Type 0 where
  pub row : AttemptRow
  pub publication : PublicationRow
  pub clean : Clean runner base universe result.collected h
  pub digest : Text
  pub is_digest : token_digest runner.db.sha256 result ≡ ok digest
  pub digest_read : ReadAt (readback_token_digest runner.db base.scope) digest h
  pub published_digest : publication.result_digest ≡ digest
  pub observed :
      publication.observed_sum_raw ≡ some (observed_of base.integrity_mode result.balances)
  pub in_range : observed_of base.integrity_mode result.balances ≤ uint256_max
  pub row_status : row.status ≡ verified
  pub row_scope : row.scope ≡ base.scope
  pub row_digest : row.result_digest ≡ some digest
  pub published_scope : publication.scope ≡ base.scope
  pub published_universe : publication.universe_hash ≡ base.universe_hash
  pub published_count : publication.batches_total ≡ length result.collected.batches
  pub all_batches : row.batches_verified ≡ row.batches_total
  pub shape : h' ≡ append_publication publication ∷ insert_attempt_state row ∷ h

on_top : {h' k h : History} {p v : Write} → h' ≡ p ∷ v ∷ k → k ≡ h → h' ≡ p ∷ v ∷ h
on_top shape e = cc

concluded_writes :
    (runner : Runner) (base : AttemptRow) (result : Collected) (n : ℕ) (digest : Text) (size : ℕ)
    (observed supply : Option ℕ) (checks : List Text) {h h' : History} {u : Unit {0}}
    → conclude_attempt runner base result n digest size observed supply checks h ≡ (ok u, h')
    → (id : Text) × (h'
        ≡ append_publication (
            publication_row runner base result n digest size observed supply checks
              (runner.now h)
              id)
          ∷ insert_attempt_state (verified_row runner base result n digest (runner.now h))
          ∷ h)
unfolding conclude_attempt
concluded_writes runner base result n digest size observed supply checks {h} e =
    let (finished, h1, e1, f1) = bind-returns (read (λ k. ok (runner.now k))) _ e in
    let (now_is, stays1) = have_read (λ k. ok (runner.now k)) e1 in
    let (u1, h2, e2, f2) = bind-returns (write runner.db _) _ f1 in
    let stored_row = wrote runner.db _ e2 in
    let (id, h3, e3, f3) = bind-returns (read (λ k. ok (runner.uuid4 k))) _ f2 in
    let (id_is, stays3) = have_read (λ k. ok (runner.uuid4 k)) e3 in
    let published = wrote runner.db _ f3 in (id, cc)

-- A publication of a token that returns has found, among the rows that the database showed at its
-- start: no terminal error of the attempt; the digest of the stored observations equal to that of
-- the collected ones, which the publication carries; and the digest of the stored universe equal to
-- the universe's. The collector had no errors, verified every batch and passed every check; the sum
-- of the balances is below 2 ** 256 and is what the publication says. It has stored two rows with
-- the attempt's scope: one with the status `verified`, the same digest and all its batches verified,
-- then the publication, with the attempt's universe hash and the number of the batches.
pub publish_token-TokenPublished :
    (runner : Runner) (base : AttemptRow) (universe : FrozenUniverse)
    (result : TokenCollectionResult) (h h' : History)
    → publish_token runner base universe result h ≡ (ok tt, h')
    → TokenPublished runner base universe result h h'
unfolding publish_token verified_row publication_row
publish_token-TokenPublished runner base universe result h h' e =
    let n = length result.balances + length result.scalars in
    let (digest, h1, e1, f1) = bind-returns (lift (token_digest runner.db.sha256 result)) _ e in
    let (is_digest, stays1) = lifted (token_digest runner.db.sha256 result) e1 in
    let (seen, h2, e2, f2) = bind-returns (verified_readback _ _) _ f1 in
    let (token_seen, stays2) = verified_readback-ReadAt _ digest e2 in
    let (checks, h3, e3, f3) = bind-returns (publication_checks runner base _ _ _ _) _ f2 in
    let (clean, same_digest, stays3) =
      publication_checks-Clean runner base universe result.collected seen digest (
        subst
          (λ k.
            publication_checks runner base (some universe) result.collected seen digest k
            ≡ (ok checks, h3))
          {x = h2} {y = h} (stays2 ∙ stays1) e3) in
    let (amounts, h4, e4, f4) =
      bind-returns (lift (observed_supply base.integrity_mode result)) _ f3 in
    let (supplied, stays4) = lifted (observed_supply base.integrity_mode result) e4 in
    let (is_sum, in_range) = observed_supply_lem base.integrity_mode result supplied in
    let (id, shape) = concluded_writes runner base result.collected n digest _ _ _ checks f4 in
    record {
      row = verified_row runner base result.collected n digest (runner.now h4);
      publication =
          publication_row runner base result.collected n digest (length universe.addresses)
            (some amounts.0) amounts.1 checks (runner.now h4) id;
      clean = clean;
      digest = digest;
      is_digest = is_digest;
      digest_read =
          moved (readback_token_digest runner.db base.scope) token_seen same_digest stays1;
      published_digest = refl;
      observed = ap some is_sum;
      in_range = in_range;
      row_status = refl;
      row_scope = refl;
      row_digest = refl;
      published_scope = refl;
      published_universe = refl;
      published_count = refl;
      all_batches = batches_verified-all result.collected.batches clean.all_verified;
      shape = on_top shape (stays4 ∙ stays3);
    }
