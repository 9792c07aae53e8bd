-- ===== src/Storage/Tests.antt =====
-- The bytes that are hashed for a pool, on concrete rows.
use mathlib.Core.List.{Permᴰ}
use rpc_state_indexer.Prelude.{ℕ, List, [], ◌∷◌, ◌++◌, ◌≡◌, refl, Result, ok, err, replicate}
use rpc_state_indexer.Prelude.Text.{text}
use rpc_state_indexer.Evm.Bytes.{Bytes}
use rpc_state_indexer.Storage.Encoding.{DigestFault}
use rpc_state_indexer.Storage.Digests.{PoolBalanceDigestRow, PoolKey, pool_keys, pool_preimage}
use rpc_state_indexer.Storage.Injective.{pool_preimage_iff}

abbrev row : ℕ → ℕ → PoolBalanceDigestRow
row digit amount = record {
  pool_address = text "0x" ++ replicate 40 b'a';
  token_address = text "0x" ++ replicate 40 digit;
  balance_raw = amount;
}

abbrev rows : List PoolBalanceDigestRow
rows = row b'c' 7 ∷ row b'b' 300 ∷ []

abbrev turned : List PoolBalanceDigestRow
turned = row b'b' 300 ∷ row b'c' 7 ∷ []

abbrev key : ℕ → ℕ → PoolKey
key byte amount = record { pool = replicate 20 0xaa; token = replicate 20 byte; balance = amount }

abbrev or_nothing : Result DigestFault Bytes → Bytes
or_nothing (ok raw) = raw
or_nothing (err fault) = []

rows_keys : pool_keys rows ≡ ok (key 0xcc 7 ∷ key 0xbb 300 ∷ [])
unfolding pool_keys rpc_state_indexer.Hex.is_address rpc_state_indexer.Evm.Bytes.from_hex
rows_keys = refl

turned_keys : pool_keys turned ≡ ok (key 0xbb 300 ∷ key 0xcc 7 ∷ [])
unfolding pool_keys rpc_state_indexer.Hex.is_address rpc_state_indexer.Evm.Bytes.from_hex
turned_keys = refl

preimage : Bytes
unfolding pool_preimage
preimage = or_nothing (pool_preimage rows)

rows_hash : pool_preimage rows ≡ ok preimage
unfolding preimage rpc_state_indexer.Hex.is_address rpc_state_indexer.Evm.Bytes.from_hex
rows_hash = refl

turned_hash : pool_preimage turned ≡ ok preimage
unfolding preimage rpc_state_indexer.Hex.is_address rpc_state_indexer.Evm.Bytes.from_hex
turned_hash = refl

pool_preimage_iff_example :
    (preimage ≡ preimage → Permᴰ (key 0xcc 7 ∷ key 0xbb 300 ∷ []) (key 0xbb 300 ∷ key 0xcc 7 ∷ []))
    × (Permᴰ (key 0xcc 7 ∷ key 0xbb 300 ∷ []) (key 0xbb 300 ∷ key 0xcc 7 ∷ [])
        → preimage ≡ preimage)
pool_preimage_iff_example =
    pool_preimage_iff rows turned rows_keys turned_keys rows_hash turned_hash
