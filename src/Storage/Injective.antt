-- ===== src/Storage/Injective.antt =====
-- The bytes that storage/digests.py hashes for a pool determine its rows up to order: every field
-- has a fixed width.
use mathlib.Core.Path.{subst}
use mathlib.Core.List
use mathlib.Core.List.{Permᴰ}
use rpc_state_indexer.Prelude.{
  ℕ, zero, suc, ◌+◌, ◌*◌, ◌/◌, ◌%◌, ◌^◌, true, false, ◌&&◌, List, [], ◌∷◌, ◌++◌, ◌≡◌, refl, sym, ap,
  ◌∙◌, Result, ok, err, arith, length, drop, all, All, ltb, Bool-cases, inl, inr, >>=-returns,
  ◌>>=◌, ltb→lt, length-append,
}
use rpc_state_indexer.Prelude.Text.{Text, text}
use rpc_state_indexer.Hex.{is_hex, is_lower_hex, is_address, strip_0x}
use rpc_state_indexer.Evm.Bytes.{
  Bytes, from_bytes, to_bytes, to_bytes_loop, from_hex, is_space, push_byte, HexFault,
}
use rpc_state_indexer.Evm.Calldata.RoundTrip.{from_bytes-to_bytes}
use rpc_state_indexer.Storage.Encoding.{
  DigestFault, hex_or_refuse, address_bytes, uint256_bytes, sort_by, each_bytes,
}
use rpc_state_indexer.Storage.Digests.{
  PoolBalanceDigestRow, PoolKey, pool_leb, pool_key, pool_keys, pool_bytes, pool_preimage,
}
use rpc_state_indexer.Storage.Order.{listing-Perm, sort_by-perm, pool_keys_cons}

append_split :
    {A : Type 0} (xs xs' : List A) {ys ys' : List A}
    → length xs ≡ length xs'
    → xs ++ ys ≡ xs' ++ ys'
    → (xs ≡ xs') × (ys ≡ ys')
append_split [] [] n e = (refl, e)
append_split [] (x ∷ xs) n e = absurd (omega (arith, n))
append_split (x ∷ xs) [] n e = absurd (omega (arith, n))
append_split (x ∷ xs) (y ∷ ys) n e =
    let e' : xs ++ _ ≡ ys ++ _ = cc in
    let (same, rest) = append_split xs ys (omega (arith, n)) e' in (cc (same), rest)

length-to_bytes_loop :
    (n v : ℕ) (later : Bytes) → length (to_bytes_loop n v later) ≡ n + length later
length-to_bytes_loop zero v later = omega arith
length-to_bytes_loop (suc n) v later =
    omega (arith, length-to_bytes_loop n (v / 256) (v % 256 ∷ later))

bytes_pushed :
    (a b : ℕ) (more : Result HexFault Bytes) {raw : Bytes}
    → push_byte a b more ≡ ok raw
    → (rest : Bytes) × (more ≡ ok rest) × (length raw ≡ suc (length rest))
unfolding is_hex
bytes_pushed a b (ok rest) e = elim (Bool-cases (is_hex a && is_hex b)) [
  | inl hex ↦ let e' = rw hex at e in (rest, refl, cc)
  | inr other ↦ let e' = rw other at e in absurd (cc e')
]
bytes_pushed a b (err fault) e = elim (Bool-cases (is_hex a && is_hex b)) [
  | inl hex ↦ let e' = rw hex at e in absurd (cc e')
  | inr other ↦ let e' = rw other at e in absurd (cc e')
]

lower-not-space : (c : ℕ) → is_lower_hex c ≡ true → is_space c ≡ false
unfolding is_lower_hex
lower-not-space c h = ground arith

from_hex_pair :
    (a b : ℕ) (s : Text) → is_lower_hex a ≡ true → from_hex (a ∷ b ∷ s) ≡ push_byte a b (from_hex s)
unfolding from_hex
from_hex_pair a b s h = rw (lower-not-space a h, from_hex) refl

all_head :
    (a b : ℕ) (s : Text)
    → all is_lower_hex (a ∷ b ∷ s) ≡ true
    → (is_lower_hex a ≡ true) × (all is_lower_hex s ≡ true)
all_head a b s h = ground arith

-- Two characters make a byte.
length-from_hex :
    (n : ℕ) (s : Text) {raw : Bytes}
    → length s ≡ 2 * n
    → all is_lower_hex s ≡ true
    → from_hex s ≡ ok raw
    → length raw ≡ n
unfolding from_hex
length-from_hex zero [] n h e = cc
length-from_hex zero (a ∷ s) n h e = absurd (omega (arith, n))
length-from_hex (suc k) [] n h e = absurd (omega (arith, n))
length-from_hex (suc k) (a ∷ []) n h e = absurd (omega (arith, n))
length-from_hex (suc k) (a ∷ b ∷ s) n h e =
    let (lower_a, rest_lower) = all_head a b s h in
    let (rest, e', longer) =
      bytes_pushed a b (from_hex s) (sym (from_hex_pair a b s lower_a) ∙ e) in
    let ih = length-from_hex k s (omega (arith, n)) rest_lower e' in omega (arith, ih, longer)

-- A key's two addresses have 20 bytes each.
abbrev Wide : PoolKey → Type 0
Wide key = (length key.pool ≡ 20) × (length key.token ≡ 20)

body_of :
    (s : Text)
    → is_address s ≡ true
    → (length (drop 2 s) ≡ 2 * 20) × (all is_lower_hex (drop 2 s) ≡ true)
unfolding is_address strip_0x
body_of [] h = absurd (cc h)
body_of (a ∷ []) h = absurd (cc h)
body_of (a ∷ b ∷ s) h = ground arith

hex_read : (r : Result HexFault Bytes) {raw : Bytes} → hex_or_refuse r ≡ ok raw → r ≡ ok raw
hex_read (ok raw) e = cc
hex_read (err fault) e = absurd (cc e)

length-address_bytes : (s : Text) {raw : Bytes} → address_bytes s ≡ ok raw → length raw ≡ 20
unfolding address_bytes
length-address_bytes s e = elim (Bool-cases (is_address s)) [
  | inl good ↦
      let (n, h) = body_of s good in
      length-from_hex 20 (drop 2 s) n h (hex_read (from_hex (drop 2 s)) (rw good at e))
  | inr bad ↦ absurd (cc (rw bad at e))
]

pool_key-Wide : (row : PoolBalanceDigestRow) {key : PoolKey} → pool_key row ≡ ok key → Wide key
unfolding pool_key
pool_key-Wide row e =
    let (pool, e1, f1) = >>=-returns (address_bytes row.pool_address) _ e in
    let (token, e2, f2) = >>=-returns (address_bytes row.token_address) _ f1 in
    (cc (length-address_bytes row.pool_address e1), cc (length-address_bytes row.token_address e2))

pool_keys-Wide :
    (rows : List PoolBalanceDigestRow) {keys : List PoolKey}
    → pool_keys rows ≡ ok keys
    → All Wide keys
unfolding pool_keys
pool_keys-Wide [] e = subst (All Wide) {x = []} (cc) tt
pool_keys-Wide (row ∷ rows) e =
    let (key, rest, e1, e2, shape) = pool_keys_cons row rows e in
    rw shape (pool_key-Wide row e1, pool_keys-Wide rows e2)

All-Perm : {keys others : List PoolKey} → Permᴰ keys others → All Wide keys → All Wide others
All-Perm Permᴰ.nil wide = wide
All-Perm (Permᴰ.cons e d) (here, rest) = (subst Wide e here, All-Perm d rest)
All-Perm (Permᴰ.swap e f) (a, (b, rest)) = (subst Wide f b, (subst Wide e a, rest))
All-Perm (Permᴰ.trans d e) wide = All-Perm e (All-Perm d wide)

uint256_bytes_lem :
    (v : ℕ) {raw : Bytes} → uint256_bytes v ≡ ok raw → (length raw ≡ 32) × (from_bytes raw ≡ v)
unfolding uint256_bytes to_bytes
uint256_bytes_lem v e = elim (Bool-cases (ltb v (2 ^ 256))) [
  | inl small ↦
      let e' = rw small at e in
      (cc (length-to_bytes_loop 32 v []), cc (from_bytes-to_bytes v (ltb→lt v _ small)))
  | inr large ↦ absurd (cc (rw large at e))
]

pool_bytes_lem :
    (key : PoolKey) {raw : Bytes}
    → pool_bytes key ≡ ok raw
    → (balance : Bytes) × (uint256_bytes key.balance ≡ ok balance)
      × (raw ≡ text "P" ++ (key.pool ++ (key.token ++ balance)))
unfolding pool_bytes
pool_bytes_lem key e =
    let (balance, e1, f1) = >>=-returns (uint256_bytes key.balance) _ e in (balance, e1, cc)

parts_inj :
    (p p' t t' b b' rest rest' : Bytes)
    → length p ≡ length p'
    → length t ≡ length t'
    → length b ≡ length b'
    → (text "P" ++ (p ++ (t ++ b))) ++ rest ≡ (text "P" ++ (p' ++ (t' ++ b'))) ++ rest'
    → (p ≡ p') × (t ≡ t') × (b ≡ b') × (rest ≡ rest')
parts_inj p p' t t' b b' rest rest' lp lt lb e =
    let lengths : suc (length (p ++ (t ++ b))) ≡ suc (length (p' ++ (t' ++ b'))) = omega (
      arith,
      length-append p (t ++ b),
      length-append t b,
      length-append p' (t' ++ b'),
      length-append t' b',
    ) in
    let (whole, same_rest) =
      append_split (text "P" ++ (p ++ (t ++ b))) (text "P" ++ (p' ++ (t' ++ b'))) lengths e in
    let tail : p ++ (t ++ b) ≡ p' ++ (t' ++ b') = cc in
    let (same_p, more) = append_split p p' lp tail in
    let (same_t, same_b) = append_split t t' lt more in (same_p, same_t, same_b, same_rest)

key_ext :
    (key key' : PoolKey)
    → key.pool ≡ key'.pool
    → key.token ≡ key'.token
    → key.balance ≡ key'.balance
    → key ≡ key'
key_ext key key' p t b = cc

nil-ne : (here body rest : Bytes) → here ≡ text "P" ++ body → here ++ rest ≡ [] → ⊥
nil-ne here body rest shape e = cc

pool_bytes_inj :
    (key key' : PoolKey) {raw raw' : Bytes} (rest rest' : Bytes)
    → Wide key
    → Wide key'
    → pool_bytes key ≡ ok raw
    → pool_bytes key' ≡ ok raw'
    → raw ++ rest ≡ raw' ++ rest'
    → (key ≡ key') × (rest ≡ rest')
pool_bytes_inj key key' {raw} {raw'} rest rest' wide wide' e e' same_bytes =
    let (balance, f, shape) = pool_bytes_lem key e in
    let (balance', f', shape') = pool_bytes_lem key' e' in
    let (width, value) = uint256_bytes_lem key.balance f in
    let (width', value') = uint256_bytes_lem key'.balance f' in
    let (same_pool, same_token, same_balance, same_rest) =
      parts_inj key.pool key'.pool key.token key'.token balance balance' rest rest'
        (wide.0 ∙ sym wide'.0) (wide.1 ∙ sym wide'.1) (width ∙ sym width')
        (cc (shape, shape', same_bytes)) in
    (
      key_ext key key' same_pool same_token (sym value ∙ ap from_bytes same_balance ∙ value'),
      same_rest,
    )

each_inj :
    (keys others : List PoolKey) {raw raw' : Bytes}
    → All Wide keys
    → All Wide others
    → each_bytes pool_bytes keys ≡ ok raw
    → each_bytes pool_bytes others ≡ ok raw'
    → raw ≡ raw'
    → keys ≡ others
each_inj [] [] w w' e e' same_bytes = refl
each_inj [] (key ∷ others) w w' e e' same_bytes =
    let (here, e1, f1) = >>=-returns (pool_bytes key) _ e' in
    let (rest, e2, f2) = >>=-returns (each_bytes pool_bytes others) _ f1 in
    let (balance, f, shape) = pool_bytes_lem key e1 in absurd (nil-ne here _ rest shape (cc))
each_inj (key ∷ keys) [] w w' e e' same_bytes =
    let (here, e1, f1) = >>=-returns (pool_bytes key) _ e in
    let (rest, e2, f2) = >>=-returns (each_bytes pool_bytes keys) _ f1 in
    let (balance, f, shape) = pool_bytes_lem key e1 in absurd (nil-ne here _ rest shape (cc))
each_inj (key ∷ keys) (key' ∷ others) w w' e e' same_bytes =
    let (here, e1, f1) = >>=-returns (pool_bytes key) _ e in
    let (rest, e2, f2) = >>=-returns (each_bytes pool_bytes keys) _ f1 in
    let (here', e1', f1') = >>=-returns (pool_bytes key') _ e' in
    let (rest', e2', f2') = >>=-returns (each_bytes pool_bytes others) _ f1' in
    let (same_key, same_rest) = pool_bytes_inj key key' rest rest' w.0 w'.0 e1 e1' (cc) in
    let ih = each_inj keys others w.1 w'.1 e2 e2' same_rest in cc

abbrev framed : Bytes → Result DigestFault Bytes
framed listed = ok (text "rpc-state-indexer/pool-observations/v1" ++ 0 ∷ listed)

abbrev bytes_of : Result DigestFault Bytes → Bytes
bytes_of (ok raw) = raw
bytes_of (err fault) = []

abbrev payload : Result DigestFault Bytes → Bytes
payload r = drop 39 (bytes_of r)

after_header :
    (listed listed' : Bytes) {raw raw' : Bytes}
    → framed listed ≡ ok raw
    → framed listed' ≡ ok raw'
    → raw ≡ raw'
    → listed ≡ listed'
after_header listed listed' e e' same_bytes = ap payload (e ∙ ap ok same_bytes ∙ sym e')

-- What is hashed for the balances of pools is the same for two lists of rows exactly when they hold
-- the same rows, as often, in any order: a row being the 20 bytes of each of its two addresses and
-- its balance.
pub pool_preimage_iff :
    (xs ys : List PoolBalanceDigestRow) {keys others : List PoolKey} {raw raw' : Bytes}
    → pool_keys xs ≡ ok keys
    → pool_keys ys ≡ ok others
    → pool_preimage xs ≡ ok raw
    → pool_preimage ys ≡ ok raw'
    → (raw ≡ raw' → Permᴰ keys others) × (Permᴰ keys others → raw ≡ raw')
unfolding pool_preimage
pool_preimage_iff xs ys {keys} {others} e e' p p' =
    let wide = All-Perm (sort_by-perm pool_leb keys) (pool_keys-Wide xs e) in
    let wide' = All-Perm (sort_by-perm pool_leb others) (pool_keys-Wide ys e') in
    let q = rw e at p in
    let q' = rw e' at p' in
    let (listed, e1, f1) = >>=-returns (each_bytes pool_bytes (sort_by pool_leb keys)) _ q in
    let (listed', e1', f1') = >>=-returns (each_bytes pool_bytes (sort_by pool_leb others)) _ q' in
    (
      (λ same_bytes.
          let sorted =
            each_inj (sort_by pool_leb keys) (sort_by pool_leb others) wide wide' e1 e1'
              (after_header listed listed' f1 f1' same_bytes) in
          Permᴰ.trans (sort_by-perm pool_leb keys) (
            subst (λ ks. Permᴰ ks others) (sym sorted)
              (List.Permᴰ.symm (sort_by-perm pool_leb others)))),
      (λ perm. ap bytes_of (sym q ∙ ap (λ r. r >>= framed) (listing-Perm perm) ∙ q')),
    )
