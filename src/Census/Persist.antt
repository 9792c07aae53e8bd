-- ===== src/Census/Persist.antt =====
-- The insertions of core/census.py before a publication: the universe's members, the observations
-- in chunks, and the terminal errors.
use rpc_state_indexer.Prelude.{ℕ, suc, List, [], ◌∷◌, Result, ok, err}
use rpc_state_indexer.Prelude.Text.{text}
use rpc_state_indexer.Prelude.Exec.{pure, lift, ◌>>=◌, ◌>>◌}
use rpc_state_indexer.Domain.{FrozenUniverse, BalanceRow, ScalarRow, PoolBalanceRow, PoolTickRow}
use rpc_state_indexer.Execution.Planner.{PlanFault, chunked}
use rpc_state_indexer.Storage.Digests.{ScalarDigestRow, PoolClStateDigestRow}
use rpc_state_indexer.Storage.Repository.{
  AttemptScope, TargetKind, token, pool, Stored, Write, CensusFault, value_error,
  insert_universe_members, insert_token_balances, insert_token_scalars, insert_pool_balances,
  insert_pool_cl_state, insert_pool_ticks, insert_terminal_errors,
}
use rpc_state_indexer.Census.Base.{
  Runner, CollectionError, TokenCollectionResult, PoolCollectionResult, PoolClCollectionResult,
  Census, write, read, balance_digest_row, scalar_digest_row, pool_digest_row, state_digest_row,
  tick_digest_row,
}
use rpc_state_indexer.Census.Rows.{
  member_rows, error_rows, stored_rows, with_sequence, group_by_batch, probe_source,
}

abbrev pub insert_chunk_rows : ℕ
insert_chunk_rows = 200000

abbrev pub chunks_or_raise {ℓ} : {A : Type ℓ} → Result PlanFault A → Result CensusFault A
chunks_or_raise (ok chunks) = ok chunks
chunks_or_raise (err fault) = err (value_error (text "chunk size"))

module _ (runner : Runner) (scope : AttemptScope) where
  -- `if rows: insert(rows)`.
  abbrev pub unless_empty : {A : Type 0} → (List A → Census (Unit {0})) → List A → Census (Unit {0})
  unless_empty insert [] = pure tt
  unless_empty insert (row ∷ rows) = insert (row ∷ rows)

  unfoldable pub persist_universe : FrozenUniverse → Census (Unit {0})
  persist_universe universe = do
    rows ← read (λ h. member_rows scope 0 universe.addresses universe.sources (runner.now h))
    unless_empty (λ rs. write runner.db (insert_universe_members rs)) rows

  unfoldable pub persist_errors : TargetKind → List CollectionError → Census (Unit {0})
  persist_errors kind errors = do
    rows ← read (λ h. ok (error_rows scope kind errors (runner.now h)))
    unless_empty (λ rs. write runner.db (insert_terminal_errors rs)) rows

  -- The loop of `_insert_chunked`.
  unfoldable pub insert_chunks :
      {A : Type 0} → (List A → ℕ → Write) → ℕ → List (List A) → Census (Unit {0})
  insert_chunks insert chunk_index [] = pure tt
  insert_chunks insert chunk_index (rows ∷ chunks) = do
    write runner.db (insert rows chunk_index)
    insert_chunks insert (suc chunk_index) chunks

  unfoldable pub insert_chunked : {A : Type 0} → (List A → ℕ → Write) → List A → Census (Unit {0})
  insert_chunked insert rows = do
    chunks ← lift (chunks_or_raise (chunked rows insert_chunk_rows))
    insert_chunks insert 0 chunks

  unfoldable pub insert_scalar_groups : List (ℕ × List (Stored ScalarDigestRow)) → Census (Unit {0})
  insert_scalar_groups [] = pure tt
  insert_scalar_groups ((sequence, rows) ∷ groups) = do
    write runner.db (insert_token_scalars rows sequence)
    insert_scalar_groups groups

  unfoldable pub persist_token_result : TokenCollectionResult → Census (Unit {0})
  persist_token_result result = do
    now ← read (λ h. ok (runner.now h))
    balances ← lift (
        stored_rows scope (λ (row : BalanceRow). row.batch_sequence) balance_digest_row
          result.collected.batches result.balances now)
    insert_chunked insert_token_balances balances
    scalars ← lift (
        stored_rows scope (λ (row : ScalarRow). row.batch_sequence) scalar_digest_row
          result.collected.batches result.scalars now)
    insert_scalar_groups (group_by_batch (with_sequence scope scalars) [])
    persist_errors token result.collected.errors

  unfoldable pub persist_pool_result : PoolCollectionResult → Census (Unit {0})
  persist_pool_result result = do
    now ← read (λ h. ok (runner.now h))
    balances ← lift (
        stored_rows scope (λ (row : PoolBalanceRow). row.batch_sequence) pool_digest_row
          result.collected.batches result.balances now)
    insert_chunked insert_pool_balances balances
    persist_errors pool result.collected.errors

  unfoldable pub persist_pool_cl_result : PoolClCollectionResult → Census (Unit {0})
  persist_pool_cl_result result = do
    now ← read (λ h. ok (runner.now h))
    source ← lift (probe_source result.collected.batches result.state.batch_sequence)
    let state : Stored PoolClStateDigestRow = record {
      scope = scope;
      observation = state_digest_row result.state;
      probe_source = source;
      batch_sequence = result.state.batch_sequence;
      observed_at = now;
    }
    write runner.db (insert_pool_cl_state state result.state.pool_class)
    ticks ← lift (
        stored_rows scope (λ (row : PoolTickRow). row.batch_sequence) tick_digest_row
          result.collected.batches result.ticks now)
    insert_chunked insert_pool_ticks ticks
    persist_errors pool result.collected.errors
