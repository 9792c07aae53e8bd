-- ===== src/Census/Evidence.antt =====
-- What core/census.py keeps of the batches' evidence: `_batches_json` and `_publication_context`.
use rpc_state_indexer.Prelude.{ℕ, ◌+◌, Bool, true, false, List, [], ◌∷◌}
use rpc_state_indexer.Prelude.Int.{pos}
use rpc_state_indexer.Prelude.Text.{Text, text}
use rpc_state_indexer.Json.{Json, int, str, arr, obj, Elements, nil, cons, end, field}
use rpc_state_indexer.Domain.{ExecutorKind, multicall3, legacy_rpc_batch}
use rpc_state_indexer.Discovery.Holders.{insert_holder, insert_holders}
use rpc_state_indexer.Census.Base.{CollectionBatchEvidence, join}

abbrev pub executor_value : ExecutorKind → Text
executor_value multicall3 = text "multicall3"
executor_value legacy_rpc_batch = text "legacy_rpc_batch"

abbrev pub json_texts : List Text → Elements
json_texts [] = nil
json_texts (t ∷ ts) = cons (str t) (json_texts ts)

abbrev pub zero_or_one : Bool → ℕ
zero_or_one true = 1
zero_or_one false = 0

-- One batch, its keys in the order of `canonical_json`.
abbrev pub batch_json : CollectionBatchEvidence → Json
batch_json b = obj (
    field (text "anchor_hash") (str b.evidence.anchor_hash) (
      field (text "batch_sequence") (int (pos b.batch_sequence)) (
        field (text "block_reference_kind") (str b.evidence.block_reference_kind) (
          field (text "body_call_count") (int (pos b.body_call_count)) (
            field (text "executor_kind") (str (executor_value b.evidence.executor_kind)) (
              field (text "provider_groups") (arr (json_texts b.evidence.provider_groups)) (
                field (text "result_digest") (str b.evidence.result_digest)
                  (field (text "verified") (int (pos (zero_or_one b.evidence.verified))) end))))))))

abbrev pub batch_elements : List CollectionBatchEvidence → Elements
batch_elements [] = nil
batch_elements (b ∷ bs) = cons (batch_json b) (batch_elements bs)

unfoldable pub batches_json : List CollectionBatchEvidence → Json
batches_json batches = arr (batch_elements batches)

-- `sum(batch.evidence.verified for batch in batches)`.
unfoldable pub batches_verified : List CollectionBatchEvidence → ℕ
batches_verified [] = 0
batches_verified (b ∷ bs) = zero_or_one b.evidence.verified + batches_verified bs

abbrev pub executor_kinds : List CollectionBatchEvidence → List Text
executor_kinds [] = []
executor_kinds (b ∷ bs) =
    insert_holder (executor_value b.evidence.executor_kind) (executor_kinds bs)

abbrev pub reference_kinds : List CollectionBatchEvidence → List Text
reference_kinds [] = []
reference_kinds (b ∷ bs) = insert_holder b.evidence.block_reference_kind (reference_kinds bs)

abbrev pub providers : List CollectionBatchEvidence → List Text
providers [] = []
providers (b ∷ bs) = insert_holders b.evidence.provider_groups (providers bs)

unfoldable pub publication_context : List CollectionBatchEvidence → Text × Text × List Text
unfolding insert_holder insert_holders
publication_context batches = (
  join (text "+") (executor_kinds batches),
  join (text "+") (reference_kinds batches),
  providers batches,
)
