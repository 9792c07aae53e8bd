-- ===== src/Hex/Quantity.antt =====
-- `hex` writes canonical quantities, and `int(_, 16)` reads them back.
use rpc_state_indexer.Prelude.{
  ℕ, zero, suc, ◌/◌, ◌%◌, ◌<◌, ◌≡◌, refl, true, Bool-cases, inl, inr, [], ◌∷◌, ltb, arith, all, ◌∙◌,
  ap, ◌==◌, not,
}
use rpc_state_indexer.Prelude.Text.{Text}
use rpc_state_indexer.Hex.{
  is_hex, is_quantity, is_quantity_body, digit_value, int_loop, int_16, digit_char, hex_loop, hex,
}

digit_value-digit_char : (d : ℕ) → d < 16 → digit_value (digit_char d) ≡ d
unfolding digit_value digit_char
digit_value-digit_char d h = ground arith

digit_char-is_hex : (d : ℕ) → d < 16 → is_hex (digit_char d) ≡ true
unfolding is_hex digit_char
digit_char-is_hex d h = ground arith

digit_char-ne_zero : (d : ℕ) → 0 < d → d < 16 → not (digit_char d == b'0') ≡ true
unfolding digit_char
digit_char-ne_zero d h k = ground arith

int_loop-hex_loop :
    (fuel n : ℕ) (rest : Text) → n < fuel → int_loop 0 (hex_loop fuel n rest) ≡ int_loop n rest
unfolding int_loop hex_loop
int_loop-hex_loop zero n rest h = absurd (omega arith)
int_loop-hex_loop (suc fuel) n rest h = elim (Bool-cases (ltb n 16)) [
  | inl last ↦
      rw last (ap (λ a. int_loop a rest) (omega (arith, digit_value-digit_char n (ground arith))))
  | inr more ↦ rw more (
      int_loop-hex_loop fuel (n / 16) _ (ground arith)
      ∙ ap (λ a. int_loop a rest) (omega (arith, digit_value-digit_char (n % 16) (omega arith))))
]

-- The texts that `hex_loop` may build upon and returns: a first digit that is not `0`.
abbrev Canonical : Text → Type 0
Canonical [] = ⊥
Canonical (c ∷ rest) = (not (c == b'0') ≡ true) × (is_hex c ≡ true) × (all is_hex rest ≡ true)

hex_loop-Canonical :
    (fuel n : ℕ) (rest : Text)
    → n < fuel
    → 0 < n
    → all is_hex rest ≡ true
    → Canonical (hex_loop fuel n rest)
unfolding hex_loop
hex_loop-Canonical zero n rest h p a = absurd (omega arith)
hex_loop-Canonical (suc fuel) n rest h p a = elim (Bool-cases (ltb n 16)) [
  | inl last ↦
      rw last (digit_char-ne_zero n p (ground arith), digit_char-is_hex n (ground arith), a)
  | inr more ↦ rw more (
      hex_loop-Canonical fuel (n / 16) _ (ground arith) (ground arith)
        (rw (digit_char-is_hex (n % 16) (omega arith)) a))
]

Canonical-is_quantity_body : (s : Text) → Canonical s → is_quantity_body s ≡ true
Canonical-is_quantity_body [] c = absurd c
Canonical-is_quantity_body (c ∷ []) h = h.1
Canonical-is_quantity_body (c ∷ d ∷ rest) h = ground (arith, h.0, h.1, h.2)

-- Every number that `hex` writes is a canonical quantity.
pub hex-is_quantity : (n : ℕ) → is_quantity (hex n) ≡ true
unfolding is_quantity hex
hex-is_quantity zero = refl
hex-is_quantity (suc n) =
    Canonical-is_quantity_body (hex_loop (suc (suc n)) (suc n) [])
      (hex_loop-Canonical (suc (suc n)) (suc n) [] (omega arith) (omega arith) refl)

-- `int(_, 16)` reads the number back.
pub int_16-hex : (n : ℕ) → int_16 (hex n) ≡ n
unfolding int_16 hex
int_16-hex n = int_loop-hex_loop (suc n) n [] (omega arith)
