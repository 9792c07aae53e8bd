-- ===== src/Hex.antt =====
-- The hexadecimal texts of JSON-RPC: the regular expressions of core/anchors.py,
-- core/discovery.py and execution/verification.py, and Python's `hex` and `int(_, 16)`.
pub mod Quantity
use rpc_state_indexer.Prelude.{
  ℕ, zero, suc, ◌+◌, ◌-◌, ◌*◌, ◌/◌, ◌%◌, Bool, true, false, ◌&&◌, ◌||◌, Option, none, some, List,
  [], ◌∷◌, ltb, leb, ◌==◌, if◌then◌else◌, length, all, map, not,
}
use rpc_state_indexer.Prelude.Text.{Text}

unfoldable pub is_digit : ℕ → Bool
is_digit c = leb b'0' c && leb c b'9'

-- `[0-9a-f]`.
unfoldable pub is_lower_hex : ℕ → Bool
unfolding is_digit
is_lower_hex c = is_digit c || leb b'a' c && leb c b'f'

-- `[0-9a-fA-F]`.
unfoldable pub is_hex : ℕ → Bool
unfolding is_lower_hex
is_hex c = is_lower_hex c || leb b'A' c && leb c b'F'

-- `str.lower` of one character. Only ASCII letters change: no other character's lower case is one
-- that the tests above accept.
unfoldable pub lower_char : ℕ → ℕ
lower_char c = if leb b'A' c && leb c b'Z' then c + 32 else c

abbrev pub lower : Text → Text
lower = map lower_char

-- What follows a leading `0x`.
unfoldable pub strip_0x : Text → Option Text
strip_0x [] = none
strip_0x (a ∷ []) = none
strip_0x (a ∷ b ∷ rest) = if a == b'0' && b == b'x' then some rest else none

abbrev pub after_0x : (Text → Bool) → Option Text → Bool
after_0x test none = false
after_0x test (some body) = test body

-- `^0x[0-9a-f]{40}$`.
unfoldable pub is_address : Text → Bool
unfolding strip_0x is_lower_hex
is_address s = after_0x (λ body. length body == 40 && all is_lower_hex body) (strip_0x s)

-- `^0x[0-9a-fA-F]{64}$`.
unfoldable pub is_hash : Text → Bool
unfolding strip_0x is_hex
is_hash s = after_0x (λ body. length body == 64 && all is_hex body) (strip_0x s)

-- `^0x(?:[0-9a-fA-F]{2})*$`.
unfoldable pub is_hex_data : Text → Bool
unfolding strip_0x is_hex
is_hex_data s = after_0x (λ body. length body % 2 == 0 && all is_hex body) (strip_0x s)

-- `0|[1-9a-fA-F][0-9a-fA-F]*`.
abbrev pub is_quantity_body : Text → Bool
is_quantity_body [] = false
is_quantity_body (c ∷ []) = is_hex c
is_quantity_body (c ∷ d ∷ rest) = is_hex c && not (c == b'0') && all is_hex (d ∷ rest)

-- `^0x(?:0|[1-9a-fA-F][0-9a-fA-F]*)$`.
unfoldable pub is_quantity : Text → Bool
unfolding strip_0x is_hex
is_quantity s = after_0x is_quantity_body (strip_0x s)

unfoldable pub digit_value : ℕ → ℕ
unfolding is_digit
digit_value c = if is_digit c then c - b'0' else if leb b'a' c then c - b'a' + 10 else c - b'A' + 10

unfoldable pub int_loop : ℕ → Text → ℕ
int_loop acc [] = acc
int_loop acc (c ∷ rest) = int_loop (acc * 16 + digit_value c) rest

-- `int(value, 16)` of a text that the tests above accept.
unfoldable pub int_16 : Text → ℕ
unfolding int_loop strip_0x digit_value
int_16 s = elim (strip_0x s) [ none ↦ 0 | some body ↦ int_loop 0 body ]

unfoldable pub digit_char : ℕ → ℕ
digit_char d = if ltb d 10 then b'0' + d else b'a' + (d - 10)

-- The digits of `n`, the last one first in the making; `n < 16 ^ fuel` is enough.
unfoldable pub hex_loop : ℕ → ℕ → Text → Text
hex_loop zero n acc = acc
hex_loop (suc fuel) n acc =
    let longer = hex_loop fuel (n / 16) (digit_char (n % 16) ∷ acc) in
    if ltb n 16 then digit_char n ∷ acc else longer

-- `hex(n)`, with as much fuel as `n` has units.
unfoldable pub hex : ℕ → Text
unfolding hex_loop digit_char
hex n = b'0' ∷ b'x' ∷ hex_loop (suc n) n []
