-- ===== src/Evm/Decoding.antt =====
-- The decoders of evm/decoding.py. A word is 32 bytes.
pub mod Signed
use rpc_state_indexer.Prelude.{
  ℕ, zero, suc, ◌+◌, ◌-◌, ◌*◌, ◌/◌, ◌%◌, ◌^◌, Bool, true, false, not, ◌&&◌, ◌||◌, Option, none,
  some, List, [], ◌∷◌, ◌++◌, Result, ok, err, ◌>>=◌, ◌>>◌, raise_if, length, take, drop, replicate,
  ltb, leb, ◌==◌, if◌then◌else◌,
}
use rpc_state_indexer.Prelude.Int.{ℤ, pos, negsuc, sub_ℕ}
use rpc_state_indexer.Prelude.Text.{Text, text, text_eq}
use rpc_state_indexer.Domain.{UIntObservation, ok_status, reverted, empty_return, malformed_return}
use rpc_state_indexer.Evm.Bytes.{Bytes, slice, from_bytes}

-- `decode_uint256` of bytes.
unfoldable pub decode_uint256 : Bool → Bytes → UIntObservation
unfolding from_bytes
decode_uint256 success raw =
    if not success
    then record { status = reverted; value = none; raw = raw; detail = [] }
    else if length raw == 0
    then record { status = empty_return; value = none; raw = raw; detail = [] }
    else if not (length raw == 32)
    then record {
      status = malformed_return;
      value = none;
      raw = raw;
      detail = text "expected 32 bytes";
    }
    else record { status = ok_status; value = some (pos (from_bytes raw)); raw = raw; detail = [] }

-- `BalancerDecodeError`.
pub data BalancerFault : Type 0 where
  short_head unaligned_offset length_out_of_bounds data_out_of_bounds : BalancerFault
  high_address_bytes length_mismatch no_tokens : BalancerFault

unfoldable pub read_offset : Bytes → ℕ → Result BalancerFault ℕ
unfolding from_bytes
read_offset raw index = do
  let start = index * 32
  raise_if (ltb (length raw) (start + 32)) short_head
  let offset = from_bytes (slice raw start 32)
  raise_if (not (offset % 32 == 0)) unaligned_offset
  ok offset

-- The words at `data_start + i * 32` for the `n` indices from there on.
unfoldable pub words_from : Bytes → ℕ → ℕ → List Bytes
words_from raw start zero = []
words_from raw start (suc n) = slice raw start 32 ∷ words_from raw (start + 32) n

unfoldable pub read_array_words : Bytes → ℕ → Result BalancerFault (List Bytes)
unfolding from_bytes words_from
read_array_words raw offset = do
  raise_if (ltb (length raw) (offset + 32)) length_out_of_bounds
  let count = from_bytes (slice raw offset 32)
  let data_start = offset + 32
  raise_if (ltb (length raw) (data_start + count * 32)) data_out_of_bounds
  ok (words_from raw data_start count)

-- The address's 20 bytes, which the program writes in hex.
unfoldable pub word_to_address : Bytes → Result BalancerFault Bytes
word_to_address word =
    if text_eq (take 12 word) (replicate 12 0) then ok (drop 12 word) else err high_address_bytes

-- `zip` of two lists of one length, each token with its balance.
unfoldable pub zip_words : List Bytes → List Bytes → Result BalancerFault (List (Bytes × ℕ))
unfolding word_to_address from_bytes
zip_words [] balances = ok []
zip_words (t ∷ tokens) [] = ok []
zip_words (t ∷ tokens) (b ∷ balances) = do
  address ← word_to_address t
  rest ← zip_words tokens balances
  ok ((address, from_bytes b) ∷ rest)

unfoldable pub zip_tokens_balances : Bytes → ℕ → ℕ → Result BalancerFault (List (Bytes × ℕ))
unfolding read_array_words zip_words
zip_tokens_balances raw tokens_offset balances_offset = do
  tokens ← read_array_words raw tokens_offset
  balances ← read_array_words raw balances_offset
  raise_if (not (length tokens == length balances)) length_mismatch
  raise_if (length tokens == 0) no_tokens
  zip_words tokens balances

unfoldable pub decode_balancer_v2_pool_tokens : Bytes → Result BalancerFault (List (Bytes × ℕ))
unfolding read_offset zip_tokens_balances
decode_balancer_v2_pool_tokens raw = do
  raise_if (ltb (length raw) (3 * 32)) short_head
  tokens_offset ← read_offset raw 0
  balances_offset ← read_offset raw 1
  zip_tokens_balances raw tokens_offset balances_offset

unfoldable pub decode_balancer_v3_pool_token_info : Bytes → Result BalancerFault (List (Bytes × ℕ))
unfolding read_offset zip_tokens_balances
decode_balancer_v3_pool_token_info raw = do
  raise_if (ltb (length raw) (4 * 32)) short_head
  tokens_offset ← read_offset raw 0
  balances_raw_offset ← read_offset raw 2
  zip_tokens_balances raw tokens_offset balances_raw_offset

-- `ClDecodeError`.
pub data ClFault : Type 0 where
  short_word uint_width int_width high_bytes not_sign_extended not_a_bool : ClFault
  short_scalar short_struct bitmap_length : ClFault

unfoldable pub word : Bytes → ℕ → Result ClFault Bytes
word raw index =
    if ltb (length raw) (index * 32 + 32) then err short_word else ok (slice raw (index * 32) 32)

unfoldable pub decode_uint : Bytes → ℕ → Result ClFault ℕ
unfolding from_bytes
decode_uint w bits = do
  raise_if (not (bits % 8 == 0) || not (ltb 0 bits && leb bits 256)) uint_width
  let high = 32 - bits / 8
  raise_if (not (text_eq (take high w) (replicate high 0))) high_bytes
  ok (from_bytes w)

-- The value of the word, read as a signed number of `bits` bits: `body` is `value & (2^bits - 1)`,
-- its sign is bit `bits - 1`, and `value >> bits` must repeat the sign.
unfoldable pub decode_signed : ℕ → ℕ → Result ClFault ℤ
decode_signed value bits =
    let body = value % 2 ^ bits in
    let negative = body / 2 ^ (bits - 1) % 2 == 1 in
    let expected_high = if negative then 2 ^ (256 - bits) - 1 else 0 in
    if not (value / 2 ^ bits == expected_high)
    then err not_sign_extended
    else ok (if negative then sub_ℕ body (2 ^ bits) else pos body)

unfoldable pub decode_int : Bytes → ℕ → Result ClFault ℤ
unfolding decode_signed from_bytes
decode_int w bits =
    if not (ltb 0 bits && leb bits 256) then err int_width else decode_signed (from_bytes w) bits

unfoldable pub decode_bool : Bytes → Result ClFault Bool
decode_bool w =
    let last = from_bytes (drop 31 w) in
    if not (text_eq (take 31 w) (replicate 31 0)) || not (last == 0 || last == 1)
    then err not_a_bool
    else ok (last == 1)

unfoldable pub decode_uint_return : Bytes → ℕ → Result ClFault ℕ
decode_uint_return raw bits = do
  raise_if (ltb (length raw) 32) short_scalar
  w ← word raw 0
  decode_uint w bits

unfoldable pub decode_int_return : Bytes → ℕ → Result ClFault ℤ
decode_int_return raw bits = do
  raise_if (ltb (length raw) 32) short_scalar
  w ← word raw 0
  decode_int w bits

pub record DecodedSlot0 : Type 0 where
  pub sqrt_price_x96 : ℕ
  pub tick : ℤ

unfoldable pub decode_slot0 : Bytes → Result ClFault DecodedSlot0
decode_slot0 raw = do
  w₀ ← word raw 0
  sqrt_price_x96 ← decode_uint w₀ 160
  w₁ ← word raw 1
  tick ← decode_int w₁ 24
  ok (record { sqrt_price_x96 = sqrt_price_x96; tick = tick })

pub record DecodedGlobalState : Type 0 where
  pub sqrt_price_x96 : ℕ
  pub tick : ℤ
  pub fee : ℕ

unfoldable pub decode_global_state : Bytes → Result ClFault DecodedGlobalState
decode_global_state raw = do
  w₀ ← word raw 0
  sqrt_price_x96 ← decode_uint w₀ 160
  w₁ ← word raw 1
  tick ← decode_int w₁ 24
  w₂ ← word raw 2
  fee ← decode_uint w₂ 16
  ok (record { sqrt_price_x96 = sqrt_price_x96; tick = tick; fee = fee })

pub record DecodedTick : Type 0 where
  pub liquidity_gross : ℕ
  pub liquidity_net : ℤ
  pub fee_growth_outside_0_x128 : ℕ
  pub fee_growth_outside_1_x128 : ℕ
  pub initialized : Bool

unfoldable pub decode_ticks : Bytes → Result ClFault DecodedTick
decode_ticks raw = do
  raise_if (ltb (length raw) (8 * 32)) short_struct
  w₀ ← word raw 0
  liquidity_gross ← decode_uint w₀ 128
  w₁ ← word raw 1
  liquidity_net ← decode_int w₁ 128
  w₂ ← word raw 2
  w₃ ← word raw 3
  w₇ ← word raw 7
  initialized ← decode_bool w₇
  ok (record {
    liquidity_gross = liquidity_gross;
    liquidity_net = liquidity_net;
    fee_growth_outside_0_x128 = from_bytes w₂;
    fee_growth_outside_1_x128 = from_bytes w₃;
    initialized = initialized;
  })

abbrev pub is_set : ℕ → ℕ → Bool
is_set value bit = value / 2 ^ bit % 2 == 1

-- The set bits among the `n` from `bit` on.
unfoldable pub bits_from : ℕ → ℕ → ℕ → List ℕ
bits_from value bit zero = []
bits_from value bit (suc n) =
    let rest = bits_from value (bit + 1) n in if is_set value bit then bit ∷ rest else rest

unfoldable pub decode_bitmap_word : Bytes → Result ClFault (List ℕ)
unfolding bits_from from_bytes
decode_bitmap_word raw =
    if not (length raw == 32) then err bitmap_length else ok (bits_from (from_bytes raw) 0 256)
