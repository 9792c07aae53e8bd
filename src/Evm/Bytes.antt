-- ===== src/Evm/Bytes.antt =====
-- Python's `bytes` as lists of numbers below 256, with `int.from_bytes`, `bytes.fromhex` and the
-- slices in use.
use rpc_state_indexer.Prelude.{
  ℕ, zero, suc, ◌+◌, ◌*◌, ◌%◌, ◌/◌, Bool, true, false, ◌&&◌, Option, none, some, List, [], ◌∷◌,
  Result, ok, err, ◌>>=◌, length, take, drop, leb, ◌||◌, ◌==◌, if◌then◌else◌,
}
use rpc_state_indexer.Prelude.Text.{Text}
use rpc_state_indexer.Hex.{is_hex, digit_value, strip_0x}

abbrev pub Bytes : Type 0
Bytes = List ℕ

-- `raw[start : start + n]`.
abbrev pub slice : Bytes → ℕ → ℕ → Bytes
slice raw start n = take n (drop start raw)

unfoldable pub from_bytes_loop : ℕ → Bytes → ℕ
from_bytes_loop acc [] = acc
from_bytes_loop acc (b ∷ bs) = from_bytes_loop (acc * 256 + b) bs

-- `int.from_bytes(raw, "big")`.
unfoldable pub from_bytes : Bytes → ℕ
unfolding from_bytes_loop
from_bytes raw = from_bytes_loop 0 raw

abbrev pub to_bytes_loop : ℕ → ℕ → Bytes → Bytes
to_bytes_loop zero value later = later
to_bytes_loop (suc n) value later = to_bytes_loop n (value / 256) (value % 256 ∷ later)

-- `value.to_bytes(n, "big")`.
unfoldable pub to_bytes : ℕ → ℕ → Bytes
to_bytes n value = to_bytes_loop n value []

-- The `ValueError`s of `hex_data_to_bytes`.
pub data HexFault : Type 0 where
  no_prefix odd_length non_hex : HexFault

-- The ASCII whitespace that `bytes.fromhex` skips before a pair of digits.
abbrev pub is_space : ℕ → Bool
is_space c = c == 32 || leb 9 c && leb c 13

abbrev pub push_byte : ℕ → ℕ → Result HexFault Bytes → Result HexFault Bytes
push_byte a b more =
    if is_hex a && is_hex b
    then (do bs ← more; ok ((digit_value a * 16 + digit_value b) ∷ bs))
    else err non_hex

-- `bytes.fromhex`.
unfoldable pub from_hex : Text → Result HexFault Bytes
unfolding is_hex digit_value
from_hex [] = ok []
from_hex (a ∷ []) = if is_space a then ok [] else err non_hex
from_hex (a ∷ b ∷ rest) = elim (is_space a) [
  | true ↦ from_hex (b ∷ rest)
  | false ↦ push_byte a b (from_hex rest)
]

unfoldable pub whole_bytes : Option Text → Result HexFault Bytes
unfolding from_hex
whole_bytes none = err no_prefix
whole_bytes (some body) = if length body % 2 == 0 then from_hex body else err odd_length

unfoldable pub hex_data_to_bytes : Text → Result HexFault Bytes
unfolding whole_bytes strip_0x
hex_data_to_bytes value = whole_bytes (strip_0x value)
