-- ===== src/Storage/Order.antt =====
-- The order in which storage/digests.py hashes the rows of a pool does not depend on the order in
-- which they come.
use mathlib.Core.List
use mathlib.Core.List.{Permᴰ}
use rpc_state_indexer.Prelude.{
  Bool, true, false, List, [], ◌∷◌, ◌≡◌, refl, ap, ◌∙◌, ok, arith, Bool-cases, inl, inr,
  >>=-returns,
}
use rpc_state_indexer.Prelude.Text.{Text, text_eq_iff}
use rpc_state_indexer.Discovery.Dedup.{text_leb}
use rpc_state_indexer.Storage.Encoding.{insert_by, sort_by, each_bytes}
use rpc_state_indexer.Storage.Digests.{
  PoolBalanceDigestRow, PoolKey, pool_leb, pool_key, pool_keys, pool_bytes,
}

text_leb_refl : (s : Text) → text_leb s s ≡ true
text_leb_refl [] = refl
text_leb_refl (c ∷ s) = ground (arith, text_leb_refl s)

text_leb_trans : (s t u : Text) → text_leb s t ≡ true → text_leb t u ≡ true → text_leb s u ≡ true
text_leb_trans [] t u p q = refl
text_leb_trans (c ∷ s) [] u p q = absurd (cc p)
text_leb_trans (c ∷ s) (d ∷ t) [] p q = absurd (cc q)
text_leb_trans (c ∷ s) (d ∷ t) (e ∷ u) p q = ground (arith, text_leb_trans s t u)

text_leb_antisym : (s t : Text) → text_leb s t ≡ true → text_leb t s ≡ true → s ≡ t
text_leb_antisym [] [] p q = refl
text_leb_antisym [] (d ∷ t) p q = absurd (cc q)
text_leb_antisym (c ∷ s) [] p q = absurd (cc p)
text_leb_antisym (c ∷ s) (d ∷ t) p q = ground (arith, text_leb_antisym s t)

text_leb_total : (s t : Text) → text_leb s t ≡ false → text_leb t s ≡ true
text_leb_total [] t p = absurd (cc p)
text_leb_total (c ∷ s) [] p = refl
text_leb_total (c ∷ s) (d ∷ t) p = ground (arith, text_leb_total s t)

-- A total order, as a test.
pub record IsOrder {ℓ} {A : Type ℓ} (before : A → A → Bool) : Type ℓ where
  pub total : (a b : A) → before a b ≡ false → before b a ≡ true
  pub antisym : (a b : A) → before a b ≡ true → before b a ≡ true → a ≡ b
  pub transitive : (a b c : A) → before a b ≡ true → before b c ≡ true → before a c ≡ true

module _ {ℓ} {A : Type ℓ} (before : A → A → Bool) (order : IsOrder before) where
  insert_by_comm :
      (a b : A) (xs : List A)
      → insert_by before a (insert_by before b xs) ≡ insert_by before b (insert_by before a xs)
  unfolding insert_by
  insert_by_comm a b [] = ground (arith, order.total a b, order.antisym a b)
  insert_by_comm a b (x ∷ xs) = ground (
    arith,
    order.total a b,
    order.antisym a b,
    order.transitive a b x,
    order.transitive b a x,
    insert_by_comm a b xs,
  )

  pub sort_by-Perm : {xs ys : List A} → Permᴰ xs ys → sort_by before xs ≡ sort_by before ys
  unfolding sort_by
  sort_by-Perm Permᴰ.nil = refl
  sort_by-Perm (Permᴰ.cons e d) = cc (ap (insert_by before) e, sort_by-Perm d)
  sort_by-Perm (Permᴰ.swap {a} {b} {l = l} e f) = cc (insert_by_comm a b (sort_by before l))
  sort_by-Perm (Permᴰ.trans d e) = sort_by-Perm d ∙ sort_by-Perm e

module _ (a b : PoolKey) where
  pool_leb_total : pool_leb a b ≡ false → pool_leb b a ≡ true
  pool_leb_total = ground (
    arith,
    text_leb_total a.pool b.pool,
    text_eq_iff a.pool b.pool,
    text_eq_iff b.pool a.pool,
    text_leb_total a.token b.token,
    text_eq_iff a.token b.token,
    text_eq_iff b.token a.token,
    text_leb_antisym a.pool b.pool,
    text_leb_antisym a.token b.token,
  )

  pool_leb_antisym : pool_leb a b ≡ true → pool_leb b a ≡ true → a ≡ b
  pool_leb_antisym p q = ground (
    arith,
    text_eq_iff a.pool b.pool,
    text_eq_iff b.pool a.pool,
    text_eq_iff a.token b.token,
    text_eq_iff b.token a.token,
    text_leb_total a.pool b.pool,
    text_leb_total a.token b.token,
    text_leb_refl a.pool,
    text_leb_refl a.token,
  )

  pool_leb_trans : (c : PoolKey) → pool_leb a b ≡ true → pool_leb b c ≡ true → pool_leb a c ≡ true
  pool_leb_trans c p q = ground (
    arith,
    text_eq_iff a.pool b.pool,
    text_eq_iff b.pool c.pool,
    text_eq_iff a.pool c.pool,
    text_eq_iff a.token b.token,
    text_eq_iff b.token c.token,
    text_eq_iff a.token c.token,
    text_leb_total a.pool b.pool,
    text_leb_total b.pool c.pool,
    text_leb_trans c.pool b.pool a.pool,
    text_leb_trans c.pool a.pool b.pool,
    text_leb_trans b.pool c.pool a.pool,
    text_leb_total a.token b.token,
    text_leb_total b.token c.token,
    text_leb_trans c.token a.token b.token,
    text_leb_trans b.token c.token a.token,
  )

pool_leb-IsOrder : IsOrder pool_leb
pool_leb-IsOrder = record {
  total = pool_leb_total;
  antisym = pool_leb_antisym;
  transitive = pool_leb_trans;
}

pub pool_keys_cons :
    (row : PoolBalanceDigestRow) (rows : List PoolBalanceDigestRow) {keys : List PoolKey}
    → pool_keys (row ∷ rows) ≡ ok keys
    → (key : PoolKey) × (rest : List PoolKey) × (pool_key row ≡ ok key)
      × (pool_keys rows ≡ ok rest)
      × (keys ≡ key ∷ rest)
unfolding pool_keys
pool_keys_cons row rows e =
    let (key, e1, f1) = >>=-returns (pool_key row) _ e in
    let (rest, e2, f2) = >>=-returns (pool_keys rows) _ f1 in (key, rest, e1, e2, cc)

pool_keys_step :
    (row : PoolBalanceDigestRow) (rows : List PoolBalanceDigestRow) {key : PoolKey}
    {rest : List PoolKey}
    → pool_key row ≡ ok key
    → pool_keys rows ≡ ok rest
    → pool_keys (row ∷ rows) ≡ ok (key ∷ rest)
unfolding pool_keys
pool_keys_step row rows e f = ground arith

pub pool_keys-Perm :
    {xs ys : List PoolBalanceDigestRow} {keys : List PoolKey}
    → Permᴰ xs ys
    → pool_keys xs ≡ ok keys
    → (others : List PoolKey) × (pool_keys ys ≡ ok others) × Permᴰ keys others
pool_keys-Perm {keys = keys} Permᴰ.nil f = (keys, f, List.Permᴰ.refl keys)
pool_keys-Perm (Permᴰ.cons {a} {b} {l₁} {l₂} e d) f =
    let (key, rest, e1, e2, shape) = pool_keys_cons a l₁ f in
    let (others, g, p) = pool_keys-Perm d e2 in
    (key ∷ others, pool_keys_step b l₂ (cc) g, rw shape (Permᴰ.cons refl p))
pool_keys-Perm (Permᴰ.swap {a} {b} {a'} {b'} {l} e g) f =
    let (key, rest, e1, e2, shape) = pool_keys_cons a (b ∷ l) f in
    let (key', rest', e1', e2', shape') = pool_keys_cons b l e2 in
    (
      key' ∷ key ∷ rest',
      pool_keys_step a' (b' ∷ l) (cc) (pool_keys_step b' l (cc) e2'),
      rw (shape, shape') (Permᴰ.swap refl refl),
    )
pool_keys-Perm (Permᴰ.trans d e) f =
    let (middle, g, p) = pool_keys-Perm d f in
    let (last, g', p') = pool_keys-Perm e g in (last, g', Permᴰ.trans p p')

-- The bytes of keys in order are the same for every order in which the keys come.
pub listing-Perm :
    {keys others : List PoolKey}
    → Permᴰ keys others
    → each_bytes pool_bytes (sort_by pool_leb keys)
      ≡ each_bytes pool_bytes (sort_by pool_leb others)
listing-Perm p = ap (each_bytes pool_bytes) (sort_by-Perm pool_leb pool_leb-IsOrder p)

module _ {ℓ} {A : Type ℓ} (before : A → A → Bool) where
  insert_by-Perm : (x : A) (xs : List A) → Permᴰ (x ∷ xs) (insert_by before x xs)
  unfolding insert_by
  insert_by-Perm x [] = List.Permᴰ.refl _
  insert_by-Perm x (y ∷ ys) = elim (Bool-cases (before x y)) [
    | inl first ↦ rw first (List.Permᴰ.refl _)
    | inr later ↦
        rw later (Permᴰ.trans (Permᴰ.swap refl refl) (Permᴰ.cons refl (insert_by-Perm x ys)))
  ]

  pub sort_by-perm : (xs : List A) → Permᴰ xs (sort_by before xs)
  unfolding sort_by
  sort_by-perm [] = Permᴰ.nil
  sort_by-perm (x ∷ xs) =
      Permᴰ.trans (Permᴰ.cons refl (sort_by-perm xs)) (insert_by-Perm x (sort_by before xs))
