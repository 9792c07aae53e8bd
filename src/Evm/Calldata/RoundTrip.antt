-- ===== src/Evm/Calldata/RoundTrip.antt =====
-- The decoders read back the words that the calldata helpers write.
use rpc_state_indexer.Prelude.{
  ℕ, zero, suc, ◌+◌, ◌*◌, ◌/◌, ◌%◌, ◌^◌, ◌<◌, ◌≤◌, ◌≡◌, refl, ap, ◌∙◌, true, false, [], ◌∷◌, ok,
  ltb, leb, ◌==◌, arith,
}
use native.Mathlib.Nat.{pow-suc, mod-eq_of_lt}
use rpc_state_indexer.Prelude.Int.{ℤ, pos, negsuc}
use rpc_state_indexer.Evm.Bytes.{Bytes, from_bytes_loop, from_bytes, to_bytes_loop, to_bytes}
use rpc_state_indexer.Evm.Calldata.{in_signed_range, low_256_bits, signed_word}
use rpc_state_indexer.Evm.Decoding.{decode_int}
use rpc_state_indexer.Evm.Decoding.Signed.{InRange, encode, decode_signed_iff, half_bounds}

from_bytes-to_bytes_loop :
    (n value : ℕ) (later : Bytes)
    → value < 256 ^ n
    → from_bytes_loop 0 (to_bytes_loop n value later) ≡ from_bytes_loop value later
unfolding from_bytes_loop
from_bytes-to_bytes_loop zero value later h = let e : value ≡ 0 = omega arith in rw e refl
from_bytes-to_bytes_loop (suc n) value later h =
    let p : 256 ^ suc n ≡ 256 ^ n * 256 = pow-suc 256 n in
    let e : value / 256 * 256 + value % 256 ≡ value = omega arith in
    from_bytes-to_bytes_loop n (value / 256) (value % 256 ∷ later) (omega arith)
    ∙ ap (λ (v : ℕ). from_bytes_loop v later) e

pub from_bytes-to_bytes : (value : ℕ) → value < 2 ^ 256 → from_bytes (to_bytes 32 value) ≡ value
unfolding from_bytes to_bytes from_bytes_loop
from_bytes-to_bytes value h = from_bytes-to_bytes_loop 32 value [] h

-- A signed number in range is written as its two's complement.
low_256_bits-encode :
    (bits : ℕ) (v : ℤ)
    → 0 < bits
    → bits ≤ 256
    → InRange bits v
    → (low_256_bits v ≡ encode v) × (encode v < 2 ^ 256) × (in_signed_range bits v ≡ true)
unfolding low_256_bits in_signed_range
low_256_bits-encode bits (pos n) some_bits most inside =
    let (positive, below) = half_bounds bits some_bits most in
    (mod-eq_of_lt (omega arith), omega arith, ground arith)
low_256_bits-encode bits (negsuc n) some_bits most inside =
    let (positive, below) = half_bounds bits some_bits most in
    let m : n % 2 ^ 256 ≡ n = mod-eq_of_lt (omega arith) in (omega arith, omega arith, ground arith)

-- `_decode_int` reads back every number in the range of its width that `signed_word` writes for
-- that width; no such number is refused by either.
pub decode_int-signed_word :
    (bits : ℕ) (v : ℤ)
    → 0 < bits
    → bits ≤ 256
    → InRange bits v
    → (word : Bytes) × (signed_word v bits ≡ ok word) × (decode_int word bits ≡ ok v)
unfolding signed_word decode_int
decode_int-signed_word bits v some_bits most inside =
    let (low, small, range) = low_256_bits-encode bits v some_bits most inside in
    let a : bits == 0 ≡ false = ground arith in
    let b : ltb 256 bits ≡ false = ground arith in
    let c : ltb 0 bits ≡ true = ground arith in
    let d : leb bits 256 ≡ true = ground arith in
    let e = from_bytes-to_bytes (encode v) small in
    (
      to_bytes 32 (low_256_bits v),
      rw (a, b, range) refl,
      rw (c, d, low, e)
          ((decode_signed_iff (encode v) bits v small some_bits most).1 (inside, refl)),
    )
