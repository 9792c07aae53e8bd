-- ===== src/Collectors/Reserves.antt =====
-- The calls of `PoolReserveCollector.collect` of collectors/pools.py, and the rows that it makes of
-- what they return.
use rpc_state_indexer.Prelude.{
  Bool, true, not, ◌&&◌, Option, none, some, List, [], ◌∷◌, ◌++◌, Result, ok, err, ◌>>=◌,
  if◌then◌else◌,
}
use rpc_state_indexer.Prelude.Int.{ℤ, pos, negsuc}
use rpc_state_indexer.Prelude.Text.{Text, text, text_in}
use rpc_state_indexer.Domain.{PoolBalanceRow}
use rpc_state_indexer.Evm.Bytes.{Bytes}
use rpc_state_indexer.Evm.Calldata.{WordFault, balance_of_calldata}
use rpc_state_indexer.Census.Base.{CollectionError}
use rpc_state_indexer.Collectors.Common.{
  UIntCallSpec, DecodedUIntCall, Calls, CollectorFault, word, unknown_key, no_value,
  unequal_lengths, observed, as_error, find_call,
}

-- `len(assets) == len(set(assets))`.
unfoldable pub distinct : List Text → Bool
distinct [] = true
distinct (asset ∷ assets) = not (text_in asset assets) && distinct assets

unfoldable pub reserve_key : Text → Text → Text
reserve_key pool token = text "reserve/" ++ pool ++ text "/" ++ token

unfoldable pub reserve_spec : Text → Text → Bytes → UIntCallSpec
unfolding reserve_key
reserve_spec pool token calldata = record {
  call = record {
    key = reserve_key pool token;
    target = token;
    calldata = calldata;
    allow_failure = true;
  };
  subject_address = token;
  call_kind = text "balanceOf(pool)";
}

abbrev pub or_word : Result WordFault Bytes → Result CollectorFault Bytes
or_word (ok raw) = ok raw
or_word (err fault) = err (word fault)

unfoldable pub reserve_specs : Text → List Text → Result CollectorFault (List UIntCallSpec)
reserve_specs pool [] = ok []
reserve_specs pool (token ∷ tokens) = do
  calldata ← or_word (balance_of_calldata pool)
  specs ← reserve_specs pool tokens
  ok (reserve_spec pool token calldata ∷ specs)

-- `decoded.calls[key]`.
abbrev pub or_unknown : Text → Option DecodedUIntCall → Result CollectorFault DecodedUIntCall
or_unknown key none = err (unknown_key key)
or_unknown key (some call) = ok call

-- An unsigned value is never negative.
abbrev pub balance_row :
    Text → Text → DecodedUIntCall → Option ℤ → Result CollectorFault PoolBalanceRow
balance_row pool token call none = err no_value
balance_row pool token call (some (negsuc n)) = err no_value
balance_row pool token call (some (pos value)) = ok (record {
  pool_address = pool;
  token_address = token;
  balance_raw = value;
  batch_sequence = call.batch_sequence;
})

abbrev pub Rows : Type 0
Rows = List PoolBalanceRow × List CollectionError

abbrev pub with_error : DecodedUIntCall → Result CollectorFault Rows → Result CollectorFault Rows
with_error call later = do
  error ← as_error call
  (balances, errors) ← later
  ok (balances, error ∷ errors)

abbrev pub with_balance :
    Text → Text → DecodedUIntCall → Result CollectorFault Rows → Result CollectorFault Rows
with_balance pool token call later = do
  row ← balance_row pool token call call.observation.value
  (balances, errors) ← later
  ok (row ∷ balances, errors)

-- The loop over `zip(assets, specs, strict=True)`.
unfoldable pub gather : Text → Calls → List Text → List UIntCallSpec → Result CollectorFault Rows
unfolding find_call as_error
gather pool calls [] [] = ok ([], [])
gather pool calls [] (spec ∷ specs) = err unequal_lengths
gather pool calls (token ∷ tokens) [] = err unequal_lengths
gather pool calls (token ∷ tokens) (spec ∷ specs) = do
  call ← or_unknown spec.call.key (find_call spec.call.key calls)
  let later = gather pool calls tokens specs
  if observed call then with_balance pool token call later else with_error call later
