-- ===== src/Prelude/Outcome.antt =====
-- What a call returns or raises, and calls that also pass a state on: the state stays as it was
-- left when an exception is raised.
use mathlib.Core.Path.{◌≡◌, refl, subst}
use native.Mathlib.Omega.{arith}
use mathlib.Core.Logic.{◌⊎◌, inl, inr}
use mathlib.Core.Bool.{Bool, true, false, not}

pub data Result {ℓ κ} (E : Type ℓ) (A : Type κ) : Type (ℓ ⊔ κ) where
  err : E → Result E A
  ok : A → Result E A

module _ {ℓ κ μ} {E : Type ℓ} {A : Type κ} {B : Type μ} where
  infixl 5 ◌>>=◌
  abbrev pub ◌>>=◌ : Result E A → (A → Result E B) → Result E B
  err fault >>= next = err fault
  ok value >>= next = next value

  -- A sequence that returns has returned at its first step.
  pub >>=-returns :
      (first : Result E A) (next : A → Result E B) {b : B}
      → (first >>= next) ≡ ok b
      → (value : A) × (first ≡ ok value) × (next value ≡ ok b)
  >>=-returns (err fault) next returned = absurd (cc returned)
  >>=-returns (ok value) next returned = (value, refl, returned)

-- `if test: raise fault`.
abbrev pub raise_if {ℓ} : {E : Type ℓ} → Bool → E → Result E (Unit {0})
raise_if false fault = ok tt
raise_if true fault = err fault

-- Where what follows `if not test: raise fault` has returned, the test has held.
pub passed {ℓ κ} :
    {E : Type ℓ} {B : Type κ} (test : Bool) (fault : E) (next : Unit {0} → Result E B) {b : B}
    → (raise_if (not test) fault >>= next) ≡ ok b
    → (test ≡ true) × (next tt ≡ ok b)
passed true fault next h = (refl, h)
passed false fault next h = absurd (cc h)

infixl 5 ◌>>◌
abbrev pub ◌>>◌ {ℓ μ} : {E : Type ℓ} {B : Type μ} → Result E (Unit {0}) → Result E B → Result E B
check >> rest = check >>= λ _. rest

-- Every exception that the call can raise satisfies `P`.
pub record RaisesOnly {ℓ κ μ} {E : Type ℓ} {A : Type κ} (P : E → Type μ) (m : Result E A)
    : Type (ℓ ⊔ κ ⊔ μ) where
  pub at : (e : E) → m ≡ err e → P e

module _ {ℓ κ μ} {E : Type ℓ} {P : E → Type μ} where
  pub RaisesOnly-ok : {A : Type κ} (a : A) → RaisesOnly {E = E} P (ok a)
  RaisesOnly-ok a = record { at = λ e h. cc }

  pub RaisesOnly-err : {A : Type κ} (e : E) → P e → RaisesOnly {A = A} P (err e)
  RaisesOnly-err e p = record { at = λ e' h. subst P (ground arith) p }

module _ {ℓ μ} {E : Type ℓ} {P : E → Type μ} where
  pub RaisesOnly-raise_if : (b : Bool) (e : E) → P e → RaisesOnly P (raise_if b e)
  RaisesOnly-raise_if true e p = RaisesOnly-err e p
  RaisesOnly-raise_if false e p = RaisesOnly-ok tt

module _ {ℓ κ ν μ} {E : Type ℓ} {P : E → Type μ} {A : Type κ} {B : Type ν} where
  pub RaisesOnly-bind :
      (m : Result E A) (f : A → Result E B)
      → RaisesOnly P m
      → ((a : A) → RaisesOnly P (f a))
      → RaisesOnly P (m >>= f)
  RaisesOnly-bind (ok a) f hm hf = hf a
  RaisesOnly-bind (err e) f hm hf = RaisesOnly-err e (hm.at e refl)

pub ruleset raises_rules = (RaisesOnly-ok, RaisesOnly-err, RaisesOnly-raise_if, RaisesOnly-bind)

pub Result-cases {ℓ κ} :
    {E : Type ℓ} {A : Type κ} (m : Result E A) → ((a : A) × (m ≡ ok a)) ⊎ ((e : E) × (m ≡ err e))
Result-cases (ok a) = inl (a, refl)
Result-cases (err e) = inr (e, refl)
