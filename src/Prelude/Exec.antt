-- ===== src/Prelude/Exec.antt =====
-- Methods that read and write a state and may raise. What was written before an exception stays
-- written, so the state comes back beside the error too.
use mathlib.Core.Path.{◌≡◌, refl, subst}
use rpc_state_indexer.Prelude.Outcome.{Result, ok, err}

abbrev pub Exec {ℓ} : Type ℓ → Type ℓ → Type ℓ → Type ℓ
Exec S E A = S → Result E A × S

module _ {ℓ} {S E A : Type ℓ} where
  unfoldable pub pure : A → Exec S E A
  pure a s = (ok a, s)

  unfoldable pub raise : E → Exec S E A
  raise e s = (err e, s)

  unfoldable pub lift : Result E A → Exec S E A
  lift r s = (r, s)

module _ {ℓ} {S E A B : Type ℓ} where
  abbrev pub continue : Result E A × S → (A → Exec S E B) → Result E B × S
  continue (ok a, s) f = f a s
  continue (err e, s) f = (err e, s)

  infixl 10 ◌>>=◌ ◌>>◌
  -- Opening this opens `pure`, `raise` and `lift` too.
  unfoldable pub ◌>>=◌ : Exec S E A → (A → Exec S E B) → Exec S E B
  unfolding pure raise lift
  ◌>>=◌ m f s = continue (m s) f

  abbrev pub ◌>>◌ : Exec S E A → Exec S E B → Exec S E B
  m >> n = m >>= λ _. n

-- From every state that satisfies `G` the method returns a value that satisfies `P`, and leaves a
-- state that satisfies `G`.
pub record Runs {ℓ} {S E A : Type ℓ} (G : S → Type ℓ) (P : A → Type ℓ) (m : Exec S E A)
    : Type ℓ where
  pub at : (s : S) → G s → (a : A) × (s' : S) × (m s ≡ (ok a, s')) × P a × G s'

module _ {ℓ} {S E A : Type ℓ} {G : S → Type ℓ} {P : A → Type ℓ} where
  pub Runs-pure : (a : A) → P a → Runs {E = E} G P (pure a)
  unfolding pure
  Runs-pure a p = record { at = λ s g. (a, s, refl, p, g) }

  pub Runs-lift : (r : Result E A) (a : A) → r ≡ ok a → P a → Runs G P (lift r)
  unfolding lift
  Runs-lift r a e p = record { at = λ s g. (a, s, rw e, p, g) }

module _ {ℓ} {S E A B : Type ℓ} {G : S → Type ℓ} {P : A → Type ℓ} {Q : B → Type ℓ} where
  pub Runs-bind :
      (m : Exec S E A) (f : A → Exec S E B)
      → Runs G P m
      → ((a : A) → P a → Runs G Q (f a))
      → Runs G Q (m >>= f)
  unfolding ◌>>=◌
  Runs-bind m f hm hf = record {
    at = λ s g.
        let (a, s', e, p, g') = hm.at s g in
        let (b, s'', e', q, g'') = (hf a p).at s' g' in (b, s'', rw e e', q, g'');
  }

-- Whatever the method returns satisfies `P`.
pub record Ensures {ℓ} {S E A : Type ℓ} (P : A → Type ℓ) (m : Exec S E A) : Type ℓ where
  pub at : (s t : S) (a : A) → m s ≡ (ok a, t) → P a

module _ {ℓ} {S E A : Type ℓ} {P : A → Type ℓ} where
  pub Ensures-pure : (a : A) → P a → Ensures {S = S} {E = E} P (pure a)
  unfolding pure
  Ensures-pure a p = record { at = λ s t b h. subst P (cc) p }

module _ {ℓ} {S E A B : Type ℓ} {P : B → Type ℓ} where
  ensured :
      (r : Result E A × S) (f : A → Exec S E B) (t : S) (b : B)
      → ((a : A) → r.0 ≡ ok a → Ensures P (f a))
      → continue r f ≡ (ok b, t)
      → P b
  ensured (ok a, s) f t b hf h = (hf a refl).at s t b h
  ensured (err e, s) f t b hf h = absurd (cc h)

  -- The rest may use that the first method returned.
  pub Ensures-bind :
      (m : Exec S E A) (f : A → Exec S E B) → ((a : A) → Ensures P (f a)) → Ensures P (m >>= f)
  unfolding ◌>>=◌
  Ensures-bind m f hf = record { at = λ s t b h. ensured (m s) f t b (λ a _. hf a) h }

  pub Ensures-bind-lift :
      (r : Result E A) (f : A → Exec S E B)
      → ((a : A) → r ≡ ok a → Ensures P (f a))
      → Ensures P (lift r >>= f)
  unfolding ◌>>=◌
  Ensures-bind-lift r f hf = record { at = λ s t b h. ensured (r, s) f t b hf h }

module _ {ℓ} {S E A B : Type ℓ} where
  continue-returns :
      (r : Result E A × S) (f : A → Exec S E B) {b : B} {t : S}
      → continue r f ≡ (ok b, t)
      → (a : A) × (s' : S) × (r ≡ (ok a, s')) × (f a s' ≡ (ok b, t))
  continue-returns (ok a, s') f h = (a, s', refl, h)
  continue-returns (err e, s') f h = absurd (cc h)

  -- A sequence that returns has returned at its first step.
  pub bind-returns :
      (m : Exec S E A) (f : A → Exec S E B) {s : S} {b : B} {t : S}
      → (m >>= f) s ≡ (ok b, t)
      → (a : A) × (s' : S) × (m s ≡ (ok a, s')) × (f a s' ≡ (ok b, t))
  unfolding ◌>>=◌
  bind-returns m f {s = s} h = continue-returns (m s) f h
