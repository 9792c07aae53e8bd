-- ===== src/Evm/Decoding/Signed.antt =====
-- `_decode_int` accepts exactly the words that are sign-extended, with the number that they stand
-- for.
use native.Mathlib.Nat.{
  pow-suc, mul-add-div, div-eq_of_lt, div-add-mod, mod-lt, mod-eq_of_lt, mul-add-mod_self_left,
  add-zero, mul-add, mul-suc, mul-zero, lt_of_mul-lt-mul_left,
}
use rpc_state_indexer.Prelude.{
  ℕ, zero, suc, ◌+◌, ◌-◌, ◌*◌, ◌/◌, ◌%◌, ◌^◌, ◌<◌, ◌≤◌, ◌≡◌, refl, sym, ap, ◌∙◌, Result, ok, err,
  Bool-cases, lt→ltb, ==_iff, ◌↔◌, inl, inr, arith, ltb, ◌==◌, if◌then◌else◌, true, false,
}
use mathlib.Core.Path.{subst}
use rpc_state_indexer.Prelude.Int.{ℤ, pos, negsuc, sub_ℕ}
use rpc_state_indexer.Evm.Decoding.{ClFault, not_sign_extended, decode_signed}

-- The range of a signed number of `bits` bits.
abbrev pub InRange : ℕ → ℤ → Type 0
InRange bits (pos n) = n < 2 ^ (bits - 1)
InRange bits (negsuc n) = n < 2 ^ (bits - 1)

-- Two's complement over 256 bits.
abbrev pub encode : ℤ → ℕ
encode (pos n) = n
encode (negsuc n) = 2 ^ 256 - suc n

pow_add : (a b : ℕ) → 2 ^ (a + b) ≡ 2 ^ a * 2 ^ b
pow_add a zero = let e : a + zero ≡ a = omega arith in rw e (omega arith)
pow_add a (suc b) =
    let e : a + suc b ≡ suc (a + b) = omega arith in
    rw (e, pow-suc, pow-suc) (omega (arith, ap (λ (t : ℕ). t * 2) (pow_add a b)))

pow_pos : (a : ℕ) → 0 < 2 ^ a
pow_pos zero = omega arith
pow_pos (suc a) = rw pow-suc (omega (arith, pow_pos a))

div_mod_unique : (m q r : ℕ) → r < m → ((m * q + r) / m ≡ q) × ((m * q + r) % m ≡ r)
div_mod_unique m q r h = (
  rw (mul-add-div {m = m} (omega arith) q r, div-eq_of_lt h) (add-zero q),
  rw mul-add-mod_self_left (mod-eq_of_lt h),
)

-- The powers of two at one width: `half` is the sign bit, `full` two of it, `high` what is above.
record Width (bits half full high : ℕ) : Type 0 where
  is_half : 2 ^ (bits - 1) ≡ half
  is_full : 2 ^ bits ≡ full
  is_high : 2 ^ (256 - bits) ≡ high
  twice : full ≡ half + half
  total : full * high ≡ 2 ^ 256
  positive : 0 < half
  above : 0 < high

width :
    (bits : ℕ) → 0 < bits → bits ≤ 256 → Width bits (2 ^ (bits - 1)) (2 ^ bits) (2 ^ (256 - bits))
width zero h le = absurd (omega arith)
width (suc n) h le =
    let e : suc n - 1 ≡ n = omega arith in
    let t : suc n + (256 - suc n) ≡ 256 = omega arith in
    record {
      is_half = refl;
      is_full = refl;
      is_high = refl;
      twice = rw e (rw pow-suc (omega arith));
      total = sym (pow_add (suc n) (256 - suc n)) ∙ ap (λ (k : ℕ). 2 ^ k) t;
      positive = pow_pos (suc n - 1);
      above = pow_pos (256 - suc n);
    }

above_one : (m k : ℕ) → 0 < k → m ≤ m * k
above_one m zero h = absurd (omega arith)
above_one m (suc k) h = let e = mul-suc m k in omega arith

-- A number in the range of its width is well below 2^256.
pub half_bounds :
    (bits : ℕ)
    → 0 < bits
    → bits ≤ 256
    → (0 < 2 ^ (bits - 1)) × (2 ^ (bits - 1) + 2 ^ (bits - 1) ≤ 2 ^ 256)
half_bounds bits h le =
    let w = width bits h le in
    let a = above_one (2 ^ bits) (2 ^ (256 - bits)) w.above in
    let t = w.total in let d = w.twice in (w.positive, omega arith)

-- The sign bit of a body below twice `half`.
sign_low : (half body : ℕ) → body < half → (body / half % 2 == 1) ≡ false
sign_low half body h = rw (div-eq_of_lt h) refl

sign_high : (half body : ℕ) → half ≤ body → body < half + half → (body / half % 2 == 1) ≡ true
sign_high half body low high =
    let e : body ≡ half * 1 + (body - half) = omega arith in
    let q : body / half ≡ 1 =
      ap (λ (k : ℕ). k / half) e ∙ (div_mod_unique half 1 (body - half) (omega arith)).0 in
    rw q refl

-- The word `full * q + body` read through its two parts.
accept : ℕ → ℕ → ℕ → ℕ → ℕ → Result ClFault ℤ
accept half full high q body =
    if ltb body half
    then (if q == 0 then ok (pos body) else err not_sign_extended)
    else (if q == high - 1 then ok (negsuc (full - body - 1)) else err not_sign_extended)

parts :
    (value bits half full high q body : ℕ)
    → Width bits half full high
    → value ≡ full * q + body
    → body < full
    → decode_signed value bits ≡ accept half full high q body
unfolding decode_signed accept
parts value bits half full high q body w split small =
    let d : value / full ≡ q =
      ap (λ (k : ℕ). k / full) split ∙ (div_mod_unique full q body small).0 in
    let m : value % full ≡ body =
      ap (λ (k : ℕ). k % full) split ∙ (div_mod_unique full q body small).1 in
    elim (Bool-cases (ltb body half)) [
      | inl e ↦
          rw (w.is_full, w.is_half, w.is_high, d, m, sign_low half body (ground arith), e)
            (elim (Bool-cases (q == 0)) [ inl z ↦ rw z refl | inr z ↦ rw z refl ])
      | inr e ↦
          rw
            (
              w.is_full,
              w.is_half,
              w.is_high,
              d,
              m,
              sign_high half body (ground arith) (let t = w.twice in ground arith),
              e,
            )
            (elim (Bool-cases (q == high - 1)) [
              | inl z ↦
                  let s : sub_ℕ body full ≡ negsuc (full - body - 1) = ground arith in
                  rw (z, s) refl
              | inr z ↦ rw z refl
            ])
    ]

-- What `accept` returns is in range and stands for the word.
accept-InRange :
    (bits half full high q body : ℕ) (v : ℤ)
    → Width bits half full high
    → body < full
    → accept half full high q body ≡ ok v
    → InRange bits v × (full * q + body ≡ encode v)
unfolding accept
accept-InRange bits half full high q body v w small returned = elim (Bool-cases (ltb body half)) [
  | inl low ↦ elim (Bool-cases (q == 0)) [
    | inl z ↦
        let e : pos body ≡ v =
          let r : accept half full high q body ≡ ok (pos body) = rw (low, z) refl in
          cc (r, returned) in
        let q₀ : q ≡ 0 = ground arith in
        subst (λ (u : ℤ). InRange bits u × (full * q + body ≡ encode u)) e
          (rw w.is_half (ground arith), rw (q₀, mul-zero) (omega arith))
    | inr z ↦ absurd (
        let r : accept half full high q body ≡ err not_sign_extended = rw (low, z) refl in
        cc (r, returned))
  ]
  | inr low ↦ elim (Bool-cases (q == high - 1)) [
    | inl z ↦
        let e : negsuc (full - body - 1) ≡ v =
          let r : accept half full high q body ≡ ok (negsuc (full - body - 1)) = rw (low, z) refl in
          cc (r, returned) in
        let t : full * q + full ≡ 2 ^ 256 =
          sym (mul-suc full q)
          ∙ ap (λ (k : ℕ). full * k) (let a = w.above in ground arith)
          ∙ w.total in
        subst (λ (u : ℤ). InRange bits u × (full * q + body ≡ encode u)) e
          (rw w.is_half (let t₂ = w.twice in ground arith), omega arith)
    | inr z ↦ absurd (
        let r : accept half full high q body ≡ err not_sign_extended = rw (low, z) refl in
        cc (r, returned))
  ]
]

quotient_zero : (m q : ℕ) → m * q < m → q ≡ 0
quotient_zero m zero h = refl
quotient_zero m (suc q) h = absurd (let e = mul-suc m q in omega arith)

accept-encode :
    (bits half full high q body : ℕ) (v : ℤ)
    → Width bits half full high
    → body < full
    → q < high
    → InRange bits v
    → full * q + body ≡ encode v
    → accept half full high q body ≡ ok v
unfolding accept
accept-encode bits half full high q body (pos n) w small below inside word =
    let i : n < half = subst (λ (k : ℕ). n < k) w.is_half inside in
    let t = w.twice in
    let q₀ : q ≡ 0 = quotient_zero full q (omega arith) in
    let f₀ : full * q ≡ 0 = ap (λ (k : ℕ). full * k) q₀ ∙ mul-zero full in
    let b : body ≡ n = omega arith in rw (lt→ltb body half (omega arith), q₀, b) refl
accept-encode bits half full high q body (negsuc n) w small below inside word =
    let i : n < half = subst (λ (k : ℕ). n < k) w.is_half inside in
    let t = w.twice in
    let d = high - q - 1 in
    let split : full * high ≡ full * q + full + full * d =
      ap (λ (k : ℕ). full * k) (let d' : high ≡ q + 1 + d = omega arith in d')
      ∙ (rw (mul-add, mul-add) (omega arith)) in
    let total = w.total in
    let d₀ : d ≡ 0 = quotient_zero full d (omega arith) in
    let f₀ : full * d ≡ 0 = ap (λ (k : ℕ). full * k) d₀ ∙ mul-zero full in
    let b : full - body - 1 ≡ n = omega arith in
    let q₀ : q ≡ high - 1 = omega arith in
    let a = w.above in
    elim (Bool-cases (ltb body half)) [
      | inl e ↦ absurd (ground arith)
      | inr e ↦ rw (e, (==_iff q (high - 1)).1 q₀, b) refl
    ]

-- `_decode_int` takes the 256-bit word `value` for the number `v` of `bits` bits exactly when `v`
-- is in the range of such numbers and the word is its two's complement.
pub decode_signed_iff :
    (value bits : ℕ) (v : ℤ)
    → value < 2 ^ 256
    → 0 < bits
    → bits ≤ 256
    → (decode_signed value bits ≡ ok v) ↔ (InRange bits v × (value ≡ encode v))
decode_signed_iff value bits v small some_bits most =
    let w = width bits some_bits most in
    let split : value ≡ 2 ^ bits * (value / 2 ^ bits) + value % 2 ^ bits =
      sym (div-add-mod value (2 ^ bits)) in
    let body = mod-lt value (pow_pos bits) in
    let read = parts value bits _ _ _ _ _ w split body in
    (
      λ returned.
          let (i, e) = accept-InRange bits _ _ _ _ _ v w body (sym read ∙ returned) in
          (i, split ∙ e),
      λ (i, e).
          read
          ∙ accept-encode bits _ _ _ _ _ v w body
              (lt_of_mul-lt-mul_left (2 ^ bits) (let t = w.total in omega arith)) i (sym split ∙ e),
    )
