-- ===== src/Execution/Tests.antt =====
-- A node with one contract, read in batches.
use rpc_state_indexer.Prelude.{
  ℕ, ◌+◌, ◌≡◌, refl, Bool, true, false, none, some, List, [], ◌∷◌, ◌++◌, replicate, Result, ok, err,
  arith, All,
}
use rpc_state_indexer.Prelude.Int.{pos}
use rpc_state_indexer.Prelude.Text.{Text, text}
use rpc_state_indexer.Json.{obj, field, end, str, int, Fields}
use rpc_state_indexer.Domain.{BlockRef, multicall3}
use rpc_state_indexer.Evm.Bytes.{Bytes}
use rpc_state_indexer.Rpc.Endpoint.{RpcEndpoint}
use rpc_state_indexer.Rpc.Pool.{EndpointPool}
use rpc_state_indexer.Rpc.Client.{Net, Limits, Client}
use rpc_state_indexer.Execution.Base.{
  ContractCall, RawCallResult, VerifiedBatchResult, ExecutionFault, provider_limit_reached,
  call_keys, result_keys,
}
use rpc_state_indexer.Execution.Planner.{chunked}
use rpc_state_indexer.Execution.Planner.Laws.{concat, Sized, concat-chunked}
use rpc_state_indexer.Execution.Adaptive.{
  Complete, Attempts, execute_adaptive, execute_adaptive-Complete,
}
use rpc_state_indexer.Execution.LegacyBatch.{decode_batch_responses, failed_call, returned_call}
use rpc_state_indexer.Execution.LegacyBatch.Order.{Answers, decode_batch_responses-Answers}
use rpc_state_indexer.Execution.Multicall.{Coder, verify_sentinels}
use rpc_state_indexer.Execution.Multicall.Sentinel.{AtAnchor, verify_sentinels-AtAnchor}
use rpc_state_indexer.Execution.Multicall.Once.{execute_once}
use rpc_state_indexer.Execution.Multicall.Entries.{Each, From}
use rpc_state_indexer.Execution.Multicall.Verified.{execute_once-Each}
use rpc_state_indexer.Execution.Groups.{execute_from}
use rpc_state_indexer.Execution.Multicall.Whole.{execute_from-execute_once}

abbrev call_named : Text → ContractCall
call_named key = record { key = key; target = text "0xc0"; calldata = []; allow_failure = true }

abbrev two_calls : List ContractCall
two_calls = call_named (text "p") ∷ call_named (text "q") ∷ []

concat-chunked_example :
    (batches : List (List ℕ)) × (chunked (1 ∷ 2 ∷ 3 ∷ 4 ∷ 5 ∷ []) 2 ≡ ok batches)
    × (concat batches ≡ 1 ∷ 2 ∷ 3 ∷ 4 ∷ 5 ∷ [])
    × All (Sized 2) batches
concat-chunked_example = concat-chunked (1 ∷ 2 ∷ 3 ∷ 4 ∷ 5 ∷ []) 2 (omega arith)

-- The responses come in the other order, and one is an error.
abbrev shuffled : List Fields
shuffled =
    field (text "id") (int (pos 2)) (field (text "result") (str (text "0x0a")) end)
    ∷ field (text "id") (int (pos 1)) (
        field (text "error")
          (obj (
            field (text "code") (int (pos 3)) (field (text "message") (str (text "reverted")) end)))
          end)
    ∷ []

abbrev in_order : List RawCallResult
in_order =
    failed_call (call_named (text "p")) (pos 3) (text "reverted")
    ∷ returned_call (call_named (text "q")) (10 ∷ [])
    ∷ []

reads_by_id : decode_batch_responses shuffled two_calls ≡ ok in_order
unfolding decode_batch_responses
reads_by_id = refl

decode_batch_responses-Answers_example :
    (result_keys in_order ≡ call_keys two_calls) × Answers shuffled two_calls in_order
decode_batch_responses-Answers_example =
    decode_batch_responses-Answers shuffled two_calls in_order reads_by_id

abbrev parent_text : Text
parent_text = text "0x" ++ replicate 64 48

abbrev anchor : BlockRef
anchor = record { number = 5; block_hash = parent_text; parent_hash = parent_text; timestamp = 9 }

abbrev word : ℕ → Bytes
word n = replicate 31 0 ++ n ∷ []

abbrev ends : List (Bool × Bytes)
ends = (true, word 5) ∷ (true, word 9) ∷ (true, replicate 32 0) ∷ []

ends_verified : verify_sentinels ends anchor ≡ ok tt
unfolding verify_sentinels rpc_state_indexer.Domain.is_ok rpc_state_indexer.Hex.is_hash
    rpc_state_indexer.Hex.lower_char rpc_state_indexer.Hex.digit_char
ends_verified = refl

verify_sentinels-AtAnchor_example : AtAnchor anchor ends
verify_sentinels-AtAnchor_example = verify_sentinels-AtAnchor ends anchor ends_verified

-- A provider that takes one call at a time.
abbrev one_at_a_time : List ContractCall → ℕ → Result ExecutionFault VerifiedBatchResult × ℕ
one_at_a_time [] s = (err provider_limit_reached, s)
one_at_a_time (c ∷ []) s = (
  ok (record {
    results = returned_call c [] ∷ [];
    evidence = record {
      executor_kind = multicall3;
      block_reference_kind = [];
      anchor_hash = [];
      provider_groups = [];
      result_digest = [];
      verified = true;
    };
  }),
  s + 1,
)
one_at_a_time (c ∷ d ∷ cs) s = (err provider_limit_reached, s)

one_at_a_time-Attempts :
    (calls : List ContractCall) (s : ℕ) → Attempts calls (one_at_a_time calls s)
one_at_a_time-Attempts [] s = tt
one_at_a_time-Attempts (c ∷ []) s = refl
one_at_a_time-Attempts (c ∷ d ∷ cs) s = tt

execute_adaptive-Complete_example :
    Complete two_calls (execute_adaptive one_at_a_time 2 two_calls 0)
execute_adaptive-Complete_example =
    execute_adaptive-Complete one_at_a_time one_at_a_time-Attempts 2 two_calls 0 (omega arith)
      (omega arith)

-- A node whose answers decode to the sentinels around one call that failed.
abbrev node : Net ℕ
node = record {
  now = λ s. s;
  sleep = λ d s. s;
  post = λ e body s. (
    ok (record {
      status_code = 200;
      reason_phrase = [];
      retry_after = none;
      body = some (
          obj
            (field (text "id") (int (pos (s + 1))) (field (text "result") (str (text "0x")) end)));
    }),
    s + 1,
  );
  casefold = λ t. t;
  data_text = λ v. [];
}

abbrev coder : Coder
coder = record {
  encode_aggregate3 = λ calls. [];
  decode_aggregate3 = λ raw. some (ends ++ (false, []) ∷ ends);
  digest_raw_results = λ results. [];
}

abbrev endpoint : RpcEndpoint
endpoint = record {
  name = text "a";
  provider_group = text "x";
  supports_http_batch = true;
  supports_eip1898 = true;
  archive_from_block = none;
  healthy = true;
  consecutive_failures = 0;
  cooldown_until = 0;
  archive_unavailable_through = none;
}

abbrev client : ℕ → Client ℕ
client n = record {
  endpoint_pool = record { endpoints = endpoint ∷ []; cursor = 0 };
  request_id = n;
  net_state = n;
}

abbrev limits : Limits
limits = record { max_retries = 2; retry_base = 1 }

abbrev one_call : List ContractCall
one_call = call_named (text "p") ∷ []

abbrev batch : VerifiedBatchResult
batch = record {
  results =
      record {
        key = text "p";
        success = false;
        returndata = [];
        error_code = none;
        error_message = none;
      }
      ∷ [];
  evidence = record {
    executor_kind = multicall3;
    block_reference_kind = text "eip1898";
    anchor_hash = parent_text;
    provider_groups = text "x" ∷ [];
    result_digest = [];
    verified = true;
  };
}

-- The call that failed is read once more.
runs_twice :
    execute_once node limits coder (text "0xca") anchor one_call (client 0) ≡ (ok batch, client 2)
unfolding execute_once rpc_state_indexer.Rpc.Pool.select rpc_state_indexer.Rpc.Endpoint.can_serve
    rpc_state_indexer.Hex.is_hash rpc_state_indexer.Domain.is_ok rpc_state_indexer.Hex.lower_char
    rpc_state_indexer.Hex.digit_char rpc_state_indexer.Rpc.Pool.record_success
runs_twice = refl

execute_once-Each_example :
    Each (From node limits coder (text "0xca") anchor one_call) 0 one_call batch.results
    × (result_keys batch.results ≡ call_keys one_call)
execute_once-Each_example =
    execute_once-Each node limits coder (text "0xca") anchor one_call (client 0) batch (client 2)
      runs_twice

execute_from-execute_once_example : Complete one_call (
    execute_from
      (execute_once node limits coder (text "0xca") anchor)
      3
      250
      anchor
      one_call
      (client 0))
execute_from-execute_once_example =
    execute_from-execute_once node limits coder (text "0xca") anchor 3 250 one_call (client 0)
      (omega arith)
