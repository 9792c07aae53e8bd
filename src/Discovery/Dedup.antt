-- ===== src/Discovery/Dedup.antt =====
-- `NormalizedLog.identity`, `sort_key` and `deduplicate_logs` of core/discovery.py.
pub mod Laws
use rpc_state_indexer.Prelude.{
  ℕ, Bool, true, false, ◌&&◌, ◌||◌, Option, none, some, List, [], ◌∷◌, ◌++◌, Result, ok, err, ◌>>=◌,
  ltb, leb, ◌==◌, if◌then◌else◌,
}
use rpc_state_indexer.Prelude.Text.{Text, text_eq}
use rpc_state_indexer.Discovery.Fault.{DiscoveryError, response, conflicting_logs}
use rpc_state_indexer.Discovery.Log.{NormalizedLog}

-- Equal `identity`: block hash, transaction hash and log index.
unfoldable pub same_identity : NormalizedLog → NormalizedLog → Bool
same_identity a b =
    text_eq a.block_hash b.block_hash
    && text_eq a.transaction_hash b.transaction_hash
    && a.log_index == b.log_index

abbrev pub texts_eq : List Text → List Text → Bool
texts_eq [] [] = true
texts_eq [] (d ∷ t) = false
texts_eq (c ∷ s) [] = false
texts_eq (c ∷ s) (d ∷ t) = text_eq c d && texts_eq s t

-- The dataclass's `==`.
unfoldable pub log_eq : NormalizedLog → NormalizedLog → Bool
unfolding same_identity
log_eq a b =
    text_eq a.address b.address
    && text_eq a.topic0 b.topic0
    && texts_eq a.topics b.topics
    && text_eq a.payload b.payload
    && a.block_number == b.block_number
    && text_eq a.block_hash b.block_hash
    && text_eq a.transaction_hash b.transaction_hash
    && a.transaction_index == b.transaction_index
    && a.log_index == b.log_index

-- `by_identity.get(log.identity)`: the dictionary in insertion order, each key with its log.
unfoldable pub find_identity : NormalizedLog → List NormalizedLog → Option NormalizedLog
find_identity log [] = none
find_identity log (l ∷ ls) = if same_identity l log then some l else find_identity log ls

-- One round: a first log of its identity goes in at the end, an equal one writes what is there.
abbrev pub record_log :
    List NormalizedLog
    → NormalizedLog
    → Option NormalizedLog
    → Result DiscoveryError (List NormalizedLog)
record_log seen log none = ok (seen ++ log ∷ [])
record_log seen log (some previous) =
    if log_eq previous log then ok seen else err (response conflicting_logs)

unfoldable pub dedup_loop :
    List NormalizedLog → List NormalizedLog → Result DiscoveryError (List NormalizedLog)
dedup_loop seen [] = ok seen
dedup_loop seen (log ∷ logs) = do
  seen' ← record_log seen log (find_identity log seen)
  dedup_loop seen' logs

-- Python's order of texts.
abbrev pub text_leb : Text → Text → Bool
text_leb [] t = true
text_leb (c ∷ s) [] = false
text_leb (c ∷ s) (d ∷ t) = ltb c d || c == d && text_leb s t

-- `sort_key`: block number, transaction index, log index, transaction hash.
abbrev pub key_leb : NormalizedLog → NormalizedLog → Bool
key_leb a b =
    ltb a.block_number b.block_number
    || a.block_number == b.block_number
      && (ltb a.transaction_index b.transaction_index
          || a.transaction_index == b.transaction_index
            && (ltb a.log_index b.log_index
                || a.log_index == b.log_index && text_leb a.transaction_hash b.transaction_hash))

unfoldable pub insert_log : NormalizedLog → List NormalizedLog → List NormalizedLog
insert_log l [] = l ∷ []
insert_log l (m ∷ ms) = if key_leb l m then l ∷ m ∷ ms else m ∷ insert_log l ms

unfoldable pub sort_logs : List NormalizedLog → List NormalizedLog
unfolding insert_log
sort_logs [] = []
sort_logs (l ∷ ls) = insert_log l (sort_logs ls)

unfoldable pub deduplicate_logs : List NormalizedLog → Result DiscoveryError (List NormalizedLog)
deduplicate_logs logs = do seen ← dedup_loop [] logs; ok (sort_logs seen)
