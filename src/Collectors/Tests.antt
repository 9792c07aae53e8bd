-- ===== src/Collectors/Tests.antt =====
-- A pool with two assets on concrete input: one balance is read, the other call reverts.
use rpc_state_indexer.Prelude.{
  ℕ, suc, true, false, List, [], ◌∷◌, ◌++◌, ◌≡◌, refl, none, some, Result, ok, replicate,
}
use rpc_state_indexer.Prelude.Int.{pos}
use rpc_state_indexer.Prelude.Text.{Text, text}
use rpc_state_indexer.Domain.{BlockRef, multicall3, pool_assets, reverted}
use rpc_state_indexer.Evm.Bytes.{Bytes}
use rpc_state_indexer.Execution.Base.{RawCallResult, VerificationEvidence, VerifiedBatchResult}
use rpc_state_indexer.Census.Base.{PoolConfig, PoolCollectionResult}
use rpc_state_indexer.Collectors.Common.{CollectorFault}
use rpc_state_indexer.Collectors.Execute.{Executor}
use rpc_state_indexer.Collectors.Reserves.{reserve_key}
use rpc_state_indexer.Collectors.Pools.{collect}
use rpc_state_indexer.Collectors.Pools.Complete.{PoolCollected, collect-PoolCollected}

abbrev pool_address : Text
pool_address = text "0x00000000000000000000000000000000000000ab"

abbrev pool : PoolConfig
pool = record {
  address = pool_address;
  deployment_block = 5;
  pool_class = text "UniswapV2";
  is_balancer = false;
  date_start = none;
  date_end = none;
  assets = text "0xd2" ∷ text "0xc1" ∷ [];
}

abbrev anchor : BlockRef
anchor = record { number = 9; block_hash = text "0xaa"; parent_hash = text "0x99"; timestamp = 100 }

abbrev read_word : RawCallResult
unfolding reserve_key
read_word = record {
  key = reserve_key pool_address (text "0xc1");
  success = true;
  returndata = replicate 31 0 ++ 7 ∷ [];
  error_code = none;
  error_message = none;
}

abbrev reverted_call : RawCallResult
unfolding reserve_key
reverted_call = record {
  key = reserve_key pool_address (text "0xd2");
  success = false;
  returndata = [];
  error_code = some (pos 3);
  error_message = some (text "execution reverted");
}

abbrev evidence : VerificationEvidence
evidence = record {
  executor_kind = multicall3;
  block_reference_kind = text "eip1898";
  anchor_hash = text "0xAA";
  provider_groups = text "g" ∷ [];
  result_digest = text "d";
  verified = true;
}

abbrev batch : VerifiedBatchResult
batch = record { results = read_word ∷ reverted_call ∷ []; evidence = evidence }

-- The state counts the executions.
abbrev executor : Executor ℕ
executor calls at s = (ok (batch ∷ []), suc s)

abbrev same : Text → Text
same t = t

abbrev one_digest : Bytes → Text
one_digest raw = text "d"

abbrev result : PoolCollectionResult
result = record {
  pool_address = pool_address;
  integrity_mode = pool_assets;
  expected_calls = 2;
  balances =
      record {
        pool_address = pool_address;
        token_address = text "0xc1";
        balance_raw = 7;
        batch_sequence = 0;
      }
      ∷ [];
  collected = record {
    errors =
        record {
          subject_address = text "0xd2";
          call_kind = text "balanceOf(pool)";
          status = reverted;
          batch_sequence = 0;
          message = text "execution reverted";
          rpc_code = some (pos 3);
          return_data = [];
        }
        ∷ [];
    batches = record { batch_sequence = 0; body_call_count = 2; evidence = evidence } ∷ [];
    integrity_checks =
        record {
          passed = false;
          check = text "pool_asset_observations_complete";
          observed = some (pos 1);
          expected = some (pos 2);
        }
        ∷ [];
  };
}

abbrev collected : Result CollectorFault PoolCollectionResult × ℕ
unfolding collect
collected = collect same one_digest executor pool anchor pool_assets 0

collects : collected ≡ (ok result, 1)
unfolding collected rpc_state_indexer.Prelude.Exec.◌>>=◌
    rpc_state_indexer.Collectors.Reserves.distinct rpc_state_indexer.Collectors.Pools.sorted_assets
    rpc_state_indexer.Storage.Encoding.sort_by rpc_state_indexer.Collectors.Reserves.reserve_specs
    rpc_state_indexer.Evm.Calldata.balance_of_calldata rpc_state_indexer.Hex.is_address
    rpc_state_indexer.Evm.Bytes.from_hex rpc_state_indexer.Collectors.Execute.execute_uint_calls
    rpc_state_indexer.Collectors.Common.unique_keys
    rpc_state_indexer.Collectors.Reserves.reserve_spec
    rpc_state_indexer.Collectors.Common.decode_batches
    rpc_state_indexer.Collectors.Common.collect_batches
    rpc_state_indexer.Collectors.Common.check_batch rpc_state_indexer.Hex.lower_char
    rpc_state_indexer.Execution.Digest.digest_raw_results
    rpc_state_indexer.Collectors.Common.collect_results rpc_state_indexer.Collectors.Common.as_error
    rpc_state_indexer.Collectors.Common.decode_raw
    rpc_state_indexer.Collectors.Common.failed_observation
    rpc_state_indexer.Collectors.Common.find_call rpc_state_indexer.Collectors.Common.find_spec
    rpc_state_indexer.Collectors.Common.missing rpc_state_indexer.Collectors.Common.status_value
    rpc_state_indexer.Collectors.Execute.completeness_check
    rpc_state_indexer.Collectors.Execute.successful collect
    rpc_state_indexer.Collectors.Pools.collection rpc_state_indexer.Collectors.Reserves.gather
    reserve_key read_word reverted_call rpc_state_indexer.Domain.is_ok
    rpc_state_indexer.Evm.Bytes.from_bytes rpc_state_indexer.Evm.Bytes.from_bytes_loop
    rpc_state_indexer.Evm.Bytes.to_bytes rpc_state_indexer.Evm.Calldata.address_word
    rpc_state_indexer.Evm.Decoding.decode_uint256 rpc_state_indexer.Execution.Digest.code_bytes
    rpc_state_indexer.Execution.Digest.result_bytes rpc_state_indexer.Execution.Digest.with_length
    rpc_state_indexer.Hex.digit_value rpc_state_indexer.Hex.is_digit rpc_state_indexer.Hex.is_hex
    rpc_state_indexer.Hex.is_lower_hex rpc_state_indexer.Hex.strip_0x
    rpc_state_indexer.Prelude.Exec.lift rpc_state_indexer.Prelude.Exec.pure
    rpc_state_indexer.Rpc.Classification.archive_markers
    rpc_state_indexer.Rpc.Classification.classify_http
    rpc_state_indexer.Rpc.Classification.classify_other
    rpc_state_indexer.Rpc.Classification.classify_response
    rpc_state_indexer.Rpc.Classification.classify_rpc_failure
    rpc_state_indexer.Rpc.Classification.is_limit_code
    rpc_state_indexer.Rpc.Classification.is_transient_status
    rpc_state_indexer.Rpc.Classification.limit_markers
    rpc_state_indexer.Rpc.Classification.message_of
    rpc_state_indexer.Rpc.Classification.revert_markers rpc_state_indexer.Storage.Encoding.insert_by
    rpc_state_indexer.Storage.Encoding.utf8 rpc_state_indexer.Storage.Encoding.utf8_char
collects = refl

collect-PoolCollected_example : PoolCollected same one_digest executor pool anchor 0 1 result
unfolding collected
collect-PoolCollected_example =
    collect-PoolCollected same one_digest executor pool anchor pool_assets 0 1 result collects
