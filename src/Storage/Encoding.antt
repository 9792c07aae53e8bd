-- ===== src/Storage/Encoding.antt =====
-- The encoders of storage/digests.py: addresses, unsigned and signed 256-bit integers and texts as
-- bytes. Unsigned integers are natural numbers. Python's `sorted` is insertion here.
use rpc_state_indexer.Prelude.{
  ℕ, suc, ◌+◌, ◌-◌, ◌/◌, ◌%◌, ◌^◌, Bool, List, [], ◌∷◌, ◌++◌, Result, ok, err, ◌>>=◌, length, drop,
  ltb, if◌then◌else◌,
}
use rpc_state_indexer.Prelude.Int.{ℤ, pos, negsuc}
use rpc_state_indexer.Prelude.Text.{Text}
use rpc_state_indexer.Hex.{is_address}
use rpc_state_indexer.Evm.Bytes.{Bytes, to_bytes, from_hex}

-- `ValueError`s.
pub data DigestFault : Type 0 where
  not_an_address outside_uint256 outside_int256 text_too_large : DigestFault
  duplicate_member tick_of_other_pool : DigestFault

abbrev pub hex_or_refuse {ℓ} : {E : Type ℓ} → Result E Bytes → Result DigestFault Bytes
hex_or_refuse (ok raw) = ok raw
hex_or_refuse (err fault) = err not_an_address

unfoldable pub address_bytes : Text → Result DigestFault Bytes
address_bytes value =
    if is_address value then hex_or_refuse (from_hex (drop 2 value)) else err not_an_address

unfoldable pub uint256_bytes : ℕ → Result DigestFault Bytes
uint256_bytes value = if ltb value (2 ^ 256) then ok (to_bytes 32 value) else err outside_uint256

-- Two's complement.
unfoldable pub int256_bytes : ℤ → Result DigestFault Bytes
int256_bytes (pos n) = if ltb n (2 ^ 255) then ok (to_bytes 32 n) else err outside_int256
int256_bytes (negsuc n) =
    if ltb n (2 ^ 255) then ok (to_bytes 32 (2 ^ 256 - suc n)) else err outside_int256

-- `value.encode("utf-8")`.
unfoldable pub utf8_char : ℕ → Bytes
utf8_char c =
    if ltb c 0x80
    then c ∷ []
    else if ltb c 0x800
    then (0xc0 + c / 64) ∷ (0x80 + c % 64) ∷ []
    else if ltb c 0x10000
    then (0xe0 + c / 4096) ∷ (0x80 + c / 64 % 64) ∷ (0x80 + c % 64) ∷ []
    else (0xf0 + c / 262144) ∷ (0x80 + c / 4096 % 64) ∷ (0x80 + c / 64 % 64) ∷ (0x80 + c % 64) ∷ []

unfoldable pub utf8 : Text → Bytes
unfolding utf8_char
utf8 [] = []
utf8 (c ∷ rest) = utf8_char c ++ utf8 rest

unfoldable pub text_bytes : Text → Result DigestFault Bytes
unfolding utf8
text_bytes value =
    let encoded = utf8 value in
    if ltb (length encoded) (2 ^ 32)
    then ok (to_bytes 4 (length encoded) ++ encoded)
    else err text_too_large

-- The items in turn, their bytes in a row.
abbrev pub each_bytes {ℓ} :
    {A : Type ℓ} → (A → Result DigestFault Bytes) → List A → Result DigestFault Bytes
each_bytes encode [] = ok []
each_bytes encode (x ∷ xs) = do here ← encode x; rest ← each_bytes encode xs; ok (here ++ rest)

-- `sorted`: insertion keeps the order of equal keys.
module _ {ℓ} {A : Type ℓ} (before : A → A → Bool) where
  unfoldable pub insert_by : A → List A → List A
  insert_by x [] = x ∷ []
  insert_by x (y ∷ ys) = if before x y then x ∷ y ∷ ys else y ∷ insert_by x ys

  unfoldable pub sort_by : List A → List A
  unfolding insert_by
  sort_by [] = []
  sort_by (x ∷ xs) = insert_by x (sort_by xs)
