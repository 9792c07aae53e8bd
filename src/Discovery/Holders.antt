-- ===== src/Discovery/Holders.antt =====
-- `extract_holders` of core/discovery.py. A set of addresses is kept as the sorted list that the
-- function returns.
pub mod Laws
mod Tests
use rpc_state_indexer.Prelude.{
  ℕ, Bool, true, false, ◌||◌, List, [], ◌∷◌, Result, ok, err, ◌>>=◌, ltb, if◌then◌else◌,
}
use rpc_state_indexer.Prelude.Text.{Text, text_eq}
use rpc_state_indexer.Discovery.Fault.{DiscoveryError, value, bad_positions}
use rpc_state_indexer.Discovery.Log.{NormalizedLog, holders}
use rpc_state_indexer.Discovery.Dedup.{text_leb}

unfoldable pub insert_holder : Text → List Text → List Text
insert_holder h [] = h ∷ []
insert_holder h (x ∷ xs) =
    let rest = insert_holder h xs in
    if text_eq h x then x ∷ xs else if text_leb h x then h ∷ x ∷ xs else x ∷ rest

unfoldable pub insert_holders : List Text → List Text → List Text
unfolding insert_holder
insert_holders [] set = set
insert_holders (h ∷ hs) set = insert_holder h (insert_holders hs set)

-- The set comprehension over the logs.
unfoldable pub collect_holders :
    List ℕ → Bool → List NormalizedLog → Result DiscoveryError (List Text)
unfolding insert_holders holders
collect_holders positions include_zero [] = ok []
collect_holders positions include_zero (log ∷ logs) = do
  found ← holders log include_zero positions
  rest ← collect_holders positions include_zero logs
  ok (insert_holders found rest)

-- `any(position < 1 for position in positions)`.
abbrev pub any_below_one : List ℕ → Bool
any_below_one [] = false
any_below_one (p ∷ ps) = ltb p 1 || any_below_one ps

abbrev pub is_empty : List ℕ → Bool
is_empty [] = true
is_empty (p ∷ ps) = false

unfoldable pub extract_holders :
    List NormalizedLog → List ℕ → Bool → Result DiscoveryError (List Text)
unfolding collect_holders
extract_holders logs positions include_zero =
    if is_empty positions || any_below_one positions
    then err (value bad_positions)
    else collect_holders positions include_zero logs
