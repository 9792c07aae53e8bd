-- ===== src/Census/Rows.antt =====
-- The rows of core/census.py that an attempt inserts before its publication, all with its scope.
use rpc_state_indexer.Prelude.{
  ℕ, suc, Option, none, some, List, [], ◌∷◌, ◌++◌, Result, ok, err, ◌>>=◌, get_elem?, take, map,
  ◌==◌, if◌then◌else◌,
}
use rpc_state_indexer.Prelude.Text.{Text, text, text_eq}
use rpc_state_indexer.Domain.{ExecutorKind}
use rpc_state_indexer.Execution.LegacyBatch.{bytes_hex}
use rpc_state_indexer.Storage.Repository.{
  AttemptScope, TargetKind, MemberRow, ErrorRow, Stored, CensusFault, raised,
}
use rpc_state_indexer.Census.Base.{CollectionBatchEvidence, CollectionError}

-- `universe.sources[holder]`.
abbrev pub sources_of : Text → List (Text × List Text) → Result CensusFault (List Text)
sources_of holder [] = err (raised (text "KeyError") (text "'" ++ holder ++ text "'"))
sources_of holder ((address, sources) ∷ rest) =
    if text_eq address holder then ok sources else sources_of holder rest

abbrev pub kind_of : Option CollectionBatchEvidence → Result CensusFault ExecutorKind
kind_of none = err (raised (text "IndexError") (text "tuple index out of range"))
kind_of (some batch) = ok batch.evidence.executor_kind

-- `result.batches[sequence].evidence.executor_kind`.
abbrev pub probe_source : List CollectionBatchEvidence → ℕ → Result CensusFault ExecutorKind
probe_source batches sequence = kind_of (get_elem? batches sequence)

-- A row goes to the group of its batch, and the first row of a batch opens one at the end.
unfoldable pub add_to_group : {A : Type 0} → ℕ → A → List (ℕ × List A) → List (ℕ × List A)
add_to_group sequence row [] = (sequence, row ∷ []) ∷ []
add_to_group sequence row ((s, rows) ∷ groups) =
    let later = add_to_group sequence row groups in
    if s == sequence then (s, rows ++ row ∷ []) ∷ groups else (s, rows) ∷ later

abbrev pub group_by_batch : {A : Type 0} → List (ℕ × A) → List (ℕ × List A) → List (ℕ × List A)
group_by_batch [] groups = groups
group_by_batch ((sequence, row) ∷ rows) groups =
    group_by_batch rows (add_to_group sequence row groups)

module _ (scope : AttemptScope) where
  unfoldable pub member_rows :
      ℕ → List Text → List (Text × List Text) → ℕ → Result CensusFault (List MemberRow)
  member_rows ordinal [] sources now = ok []
  member_rows ordinal (holder ∷ holders) sources now = do
    listed ← sources_of holder sources
    rest ← member_rows (suc ordinal) holders sources now
    ok (
        record {
          scope = scope;
          holder_address = holder;
          member_sources = listed;
          member_ordinal = ordinal;
          inserted_at = now;
        }
        ∷ rest)

  abbrev pub error_row : TargetKind → ℕ → CollectionError → ErrorRow
  error_row kind now error = record {
    scope = scope;
    target_kind = kind;
    subject_address = error.subject_address;
    call_kind = error.call_kind;
    batch_sequence = error.batch_sequence;
    error_class = error.status;
    rpc_code = error.rpc_code;
    return_data = text "0x" ++ bytes_hex error.return_data;
    error_message = take 4096 error.message;
    terminal_at = now;
  }

  abbrev pub error_rows : TargetKind → List CollectionError → ℕ → List ErrorRow
  error_rows kind errors now = map (error_row kind now) errors

  -- The rows of observations, each with the executor that its batch was read by.
  unfoldable pub stored_rows :
      {A B : Type 0}
      → (A → ℕ)
      → (A → B)
      → List CollectionBatchEvidence
      → List A
      → ℕ
      → Result CensusFault (List (Stored B))
  stored_rows sequence digest_row batches [] now = ok []
  stored_rows sequence digest_row batches (row ∷ rows) now = do
    source ← probe_source batches (sequence row)
    rest ← stored_rows sequence digest_row batches rows now
    ok (
        record {
          scope = scope;
          observation = digest_row row;
          probe_source = source;
          batch_sequence = sequence row;
          observed_at = now;
        }
        ∷ rest)

  abbrev pub with_sequence : {A : Type 0} → List (Stored A) → List (ℕ × Stored A)
  with_sequence [] = []
  with_sequence (row ∷ rows) = (row.batch_sequence, row) ∷ with_sequence rows
