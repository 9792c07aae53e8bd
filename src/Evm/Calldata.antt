-- ===== src/Evm/Calldata.antt =====
-- The words and calldata of evm/calldata.py.
pub mod RoundTrip
use rpc_state_indexer.Prelude.{
  ℕ, zero, suc, ◌+◌, ◌-◌, ◌/◌, ◌%◌, ◌^◌, Bool, true, false, not, ◌&&◌, List, [], ◌∷◌, ◌++◌, Result,
  ok, err, ◌>>=◌, ◌>>◌, raise_if, ltb, leb, ◌==◌, ◌||◌, length, drop, replicate, if◌then◌else◌,
}
use rpc_state_indexer.Prelude.Int.{ℤ, pos, negsuc}
use rpc_state_indexer.Prelude.Text.{Text}
use rpc_state_indexer.Hex.{is_address}
use rpc_state_indexer.Evm.Bytes.{Bytes, HexFault, to_bytes, from_hex}

-- `ValueError`.
pub data WordFault : Type 0 where
  unsupported_width outside_range outside_uint256 invalid_address : WordFault

-- `-(2 ** (bits - 1)) <= value <= 2 ** (bits - 1) - 1`.
unfoldable pub in_signed_range : ℕ → ℤ → Bool
in_signed_range bits (pos n) = leb n (2 ^ (bits - 1) - 1)
in_signed_range bits (negsuc n) = leb (n + 1) (2 ^ (bits - 1))

-- `value & (2**256 - 1)`.
unfoldable pub low_256_bits : ℤ → ℕ
low_256_bits (pos n) = n % 2 ^ 256
low_256_bits (negsuc n) = 2 ^ 256 - 1 - n % 2 ^ 256

unfoldable pub signed_word : ℤ → ℕ → Result WordFault Bytes
unfolding in_signed_range low_256_bits to_bytes
signed_word value bits = do
  raise_if (bits == 0 || ltb 256 bits) unsupported_width
  raise_if (not (in_signed_range bits value)) outside_range
  ok (to_bytes 32 (low_256_bits value))

unfoldable pub uint256_word : ℕ → Result WordFault Bytes
unfolding to_bytes
uint256_word value = if leb (2 ^ 256) value then err outside_uint256 else ok (to_bytes 32 value)

abbrev pub block_hash_selector : Bytes
block_hash_selector = 238 ∷ 130 ∷ 172 ∷ 94 ∷ []

unfoldable pub get_block_hash_calldata : ℕ → Result WordFault Bytes
unfolding uint256_word
get_block_hash_calldata block_number = do
  word ← uint256_word block_number
  ok (block_hash_selector ++ word)

-- `raw.rjust(32, b"\x00")`.
abbrev pub padded : Result HexFault Bytes → Result WordFault Bytes
padded (ok raw) = ok (replicate (32 - length raw) 0 ++ raw)
padded (err fault) = err invalid_address

unfoldable pub address_word : Text → Result WordFault Bytes
address_word address =
    if is_address address then padded (from_hex (drop 2 address)) else err invalid_address

abbrev pub balance_of_selector : Bytes
balance_of_selector = 112 ∷ 160 ∷ 130 ∷ 49 ∷ []

unfoldable pub balance_of_calldata : Text → Result WordFault Bytes
unfolding address_word
balance_of_calldata holder = do word ← address_word holder; ok (balance_of_selector ++ word)
