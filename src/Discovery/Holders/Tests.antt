-- ===== src/Discovery/Holders/Tests.antt =====
-- Two transfers between three addresses.
use rpc_state_indexer.Prelude.{ℕ, ◌≡◌, refl, false, List, [], ◌∷◌, ◌++◌, replicate, ok}
use rpc_state_indexer.Prelude.Text.{Text, text, text_in}
use rpc_state_indexer.Discovery.Log.{NormalizedLog}
use rpc_state_indexer.Discovery.Holders.{extract_holders}
use rpc_state_indexer.Discovery.Holders.Laws.{holds_any, IsAscending, extract_holders-laws}

abbrev address_word : ℕ → Text
address_word d = text "0x" ++ replicate 24 48 ++ replicate 40 d

abbrev address : ℕ → Text
address d = text "0x" ++ replicate 40 d

abbrev transfer : ℕ → ℕ → NormalizedLog
transfer from to = record {
  address = address 99;
  topic0 = text "0x" ++ replicate 64 55;
  topics = (text "0x" ++ replicate 64 55) ∷ address_word from ∷ address_word to ∷ [];
  payload = text "0x";
  block_number = 1;
  block_hash = [];
  transaction_hash = [];
  transaction_index = 0;
  log_index = 0;
}

-- A mint to `b`, and a transfer from `b` to `a`.
abbrev transfers : List NormalizedLog
transfers = transfer 48 98 ∷ transfer 98 97 ∷ []

extracts : extract_holders transfers (1 ∷ 2 ∷ []) false ≡ ok (address 97 ∷ address 98 ∷ [])
unfolding extract_holders rpc_state_indexer.Hex.lower_char
extracts = refl

extract_holders-laws_example :
    ((t : Text)
      → text_in t (address 97 ∷ address 98 ∷ []) ≡ holds_any t (1 ∷ 2 ∷ []) false transfers)
    × IsAscending (address 97 ∷ address 98 ∷ [])
extract_holders-laws_example =
    extract_holders-laws transfers (1 ∷ 2 ∷ []) false (address 97 ∷ address 98 ∷ []) extracts
