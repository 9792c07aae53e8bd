-- ===== src/Storage/Digests.antt =====
-- storage/digests.py: the bytes that are hashed for a universe and for the observations of an
-- attempt. SHA-256 itself is a parameter.
use rpc_state_indexer.Prelude.{
  ℕ, Bool, true, false, not, ◌&&◌, ◌||◌, Option, none, some, List, [], ◌∷◌, ◌++◌, Result, ok, ◌>>=◌,
  ◌>>◌, raise_if, length, ltb, leb, ◌==◌,
}
use rpc_state_indexer.Prelude.Int.{ℤ, ltb_ℤ}
use rpc_state_indexer.Prelude.Text.{Text, text, text_eq, text_in}
use rpc_state_indexer.Evm.Bytes.{Bytes, to_bytes}
use rpc_state_indexer.Discovery.Dedup.{text_leb}
use rpc_state_indexer.Discovery.Holders.{insert_holders}
use rpc_state_indexer.Storage.Encoding.{
  DigestFault, duplicate_member, tick_of_other_pool, address_bytes, uint256_bytes, int256_bytes,
  text_bytes, each_bytes, sort_by,
}

pub record BalanceDigestRow : Type 0 where
  pub holder_address : Text
  pub balance_raw : ℕ
  pub scaled_balance_raw : Option ℕ
  pub value_kind : Text

pub record ScalarDigestRow : Type 0 where
  pub scalar_name : Text
  pub scalar_raw : ℕ

pub record PoolBalanceDigestRow : Type 0 where
  pub pool_address : Text
  pub token_address : Text
  pub balance_raw : ℕ

pub record PoolClStateDigestRow : Type 0 where
  pub pool_address : Text
  pub sqrt_price_x96 : ℕ
  pub current_tick : ℤ
  pub liquidity : ℕ
  pub fee_growth_global_0_x128 : ℕ
  pub fee_growth_global_1_x128 : ℕ
  pub tick_spacing : ℤ
  pub fee : ℕ
  pub tick_count : ℕ

pub record PoolTickDigestRow : Type 0 where
  pub pool_address : Text
  pub tick : ℤ
  pub liquidity_gross : ℕ
  pub liquidity_net : ℤ
  pub fee_growth_outside_0_x128 : ℕ
  pub fee_growth_outside_1_x128 : ℕ

-- A member of a universe: its address's bytes, its sources sorted and each once.
abbrev pub Member : Type 0
Member = Bytes × List Text

abbrev pub member_leb : Member → Member → Bool
member_leb a b = text_leb a.0 b.0

unfoldable pub canonical_members :
    List (Text × List Text) → List Text → Result DigestFault (List Member)
unfolding address_bytes
canonical_members [] seen = ok []
canonical_members ((address, sources) ∷ items) seen = do
  raise_if (text_in address seen) duplicate_member
  raw ← address_bytes address
  rest ← canonical_members items (address ∷ seen)
  ok ((raw, insert_holders sources []) ∷ rest)

unfoldable pub member_bytes : Member → Result DigestFault Bytes
unfolding text_bytes
member_bytes (address, sources) = do
  listed ← each_bytes text_bytes sources
  ok (text "U" ++ (address ++ (to_bytes 4 (length sources) ++ listed)))

-- What `digest.update` was given in all.
unfoldable pub universe_preimage : List (Text × List Text) → Result DigestFault Bytes
unfolding canonical_members member_bytes sort_by
universe_preimage members = do
  canonical ← canonical_members members []
  listed ← each_bytes member_bytes (sort_by member_leb canonical)
  ok (text "rpc-state-indexer/universe/v1" ++ 0 ∷ listed)

abbrev pub option_leb : Option ℕ → Option ℕ → Bool
option_leb none b = true
option_leb (some a) none = false
option_leb (some a) (some b) = leb a b

-- A row with the bytes of its address, as the sort key takes it.
abbrev pub balance_leb : Bytes × BalanceDigestRow → Bytes × BalanceDigestRow → Bool
balance_leb (a, x) (b, y) =
    not (text_leb b a)
    || text_eq a b
      && (not (text_leb y.value_kind x.value_kind)
          || text_eq x.value_kind y.value_kind
            && (ltb x.balance_raw y.balance_raw
                || x.balance_raw == y.balance_raw
                  && option_leb x.scaled_balance_raw y.scaled_balance_raw))

abbrev pub scalar_leb : ScalarDigestRow → ScalarDigestRow → Bool
scalar_leb x y =
    not (text_leb y.scalar_name x.scalar_name)
    || text_eq x.scalar_name y.scalar_name && leb x.scalar_raw y.scalar_raw

abbrev pub with_address {ℓ} :
    {A : Type ℓ} → (A → Text) → List A → Result DigestFault (List (Bytes × A))
with_address address [] = ok []
with_address address (row ∷ rows) = do
  raw ← address_bytes (address row)
  rest ← with_address address rows
  ok ((raw, row) ∷ rest)

abbrev pub scaled_bytes : Option ℕ → Result DigestFault Bytes
scaled_bytes none = ok (0 ∷ [])
scaled_bytes (some value) = uint256_bytes value >>= λ raw. ok (1 ∷ raw)

unfoldable pub balance_bytes : Bytes × BalanceDigestRow → Result DigestFault Bytes
unfolding text_bytes uint256_bytes
balance_bytes (address, row) = do
  kind ← text_bytes row.value_kind
  balance ← uint256_bytes row.balance_raw
  scaled ← scaled_bytes row.scaled_balance_raw
  ok (text "B" ++ (address ++ (kind ++ (balance ++ scaled))))

unfoldable pub scalar_bytes : ScalarDigestRow → Result DigestFault Bytes
unfolding text_bytes uint256_bytes
scalar_bytes row = do
  name ← text_bytes row.scalar_name
  value ← uint256_bytes row.scalar_raw
  ok (text "S" ++ (name ++ value))

unfoldable pub token_preimage :
    List BalanceDigestRow → List ScalarDigestRow → Result DigestFault Bytes
unfolding address_bytes balance_bytes scalar_bytes sort_by
token_preimage balances scalars = do
  keyed ← with_address (λ (row : BalanceDigestRow). row.holder_address) balances
  listed ← each_bytes balance_bytes (sort_by balance_leb keyed)
  named ← each_bytes scalar_bytes (sort_by scalar_leb scalars)
  ok (text "rpc-state-indexer/token-observations/v1" ++ 0 ∷ listed ++ named)

-- A pool's balance with the bytes of its two addresses.
pub record PoolKey : Type 0 where
  pub pool : Bytes
  pub token : Bytes
  pub balance : ℕ

abbrev pub pool_leb : PoolKey → PoolKey → Bool
pool_leb x y =
    not (text_leb y.pool x.pool)
    || text_eq x.pool y.pool
      && (not (text_leb y.token x.token) || text_eq x.token y.token && leb x.balance y.balance)

unfoldable pub pool_key : PoolBalanceDigestRow → Result DigestFault PoolKey
unfolding address_bytes
pool_key row = do
  pool ← address_bytes row.pool_address
  token ← address_bytes row.token_address
  ok (record { pool = pool; token = token; balance = row.balance_raw })

unfoldable pub pool_keys : List PoolBalanceDigestRow → Result DigestFault (List PoolKey)
unfolding pool_key
pool_keys [] = ok []
pool_keys (row ∷ rows) = do key ← pool_key row; rest ← pool_keys rows; ok (key ∷ rest)

unfoldable pub pool_bytes : PoolKey → Result DigestFault Bytes
unfolding uint256_bytes
pool_bytes key = do
  balance ← uint256_bytes key.balance
  ok (text "P" ++ (key.pool ++ (key.token ++ balance)))

unfoldable pub pool_preimage : List PoolBalanceDigestRow → Result DigestFault Bytes
unfolding pool_keys pool_bytes sort_by
pool_preimage rows = do
  keyed ← pool_keys rows
  listed ← each_bytes pool_bytes (sort_by pool_leb keyed)
  ok (text "rpc-state-indexer/pool-observations/v1" ++ 0 ∷ listed)

abbrev pub tick_leb : PoolTickDigestRow → PoolTickDigestRow → Bool
tick_leb x y = not (ltb_ℤ y.tick x.tick)

unfoldable pub state_bytes : PoolClStateDigestRow → Result DigestFault Bytes
unfolding address_bytes uint256_bytes int256_bytes
state_bytes state = do
  pool ← address_bytes state.pool_address
  price ← uint256_bytes state.sqrt_price_x96
  tick ← int256_bytes state.current_tick
  liquidity ← uint256_bytes state.liquidity
  growth_0 ← uint256_bytes state.fee_growth_global_0_x128
  growth_1 ← uint256_bytes state.fee_growth_global_1_x128
  spacing ← int256_bytes state.tick_spacing
  fee ← uint256_bytes state.fee
  count ← uint256_bytes state.tick_count
  ok (
      text "C"
      ++ (pool
          ++ (price
              ++ (tick ++ (liquidity ++ (growth_0 ++ (growth_1 ++ (spacing ++ (fee ++ count)))))))))

unfoldable pub tick_bytes : Text → PoolTickDigestRow → Result DigestFault Bytes
unfolding uint256_bytes int256_bytes
tick_bytes pool_address row = do
  raise_if (not (text_eq row.pool_address pool_address)) tick_of_other_pool
  tick ← int256_bytes row.tick
  gross ← uint256_bytes row.liquidity_gross
  net ← int256_bytes row.liquidity_net
  outside_0 ← uint256_bytes row.fee_growth_outside_0_x128
  outside_1 ← uint256_bytes row.fee_growth_outside_1_x128
  ok (text "T" ++ (tick ++ (gross ++ (net ++ (outside_0 ++ outside_1)))))

unfoldable pub cl_preimage :
    PoolClStateDigestRow → List PoolTickDigestRow → Result DigestFault Bytes
unfolding state_bytes tick_bytes sort_by
cl_preimage state ticks = do
  head ← state_bytes state
  listed ← each_bytes (tick_bytes state.pool_address) (sort_by tick_leb ticks)
  ok (text "rpc-state-indexer/cl-observations/v1" ++ 0 ∷ head ++ listed)

-- The digests, with SHA-256 as a hexadecimal text.
module _ (sha256 : Bytes → Text) where
  abbrev pub hashed : Result DigestFault Bytes → Result DigestFault Text
  hashed preimage = preimage >>= λ raw. ok (sha256 raw)

  unfoldable pub digest_universe : List (Text × List Text) → Result DigestFault Text
  unfolding universe_preimage
  digest_universe members = hashed (universe_preimage members)

  unfoldable pub digest_token_observations :
      List BalanceDigestRow → List ScalarDigestRow → Result DigestFault Text
  unfolding token_preimage
  digest_token_observations balances scalars = hashed (token_preimage balances scalars)

  unfoldable pub digest_pool_observations : List PoolBalanceDigestRow → Result DigestFault Text
  unfolding pool_preimage
  digest_pool_observations rows = hashed (pool_preimage rows)

  unfoldable pub digest_cl_observations :
      PoolClStateDigestRow → List PoolTickDigestRow → Result DigestFault Text
  unfolding cl_preimage
  digest_cl_observations state ticks = hashed (cl_preimage state ticks)
