-- ===== src/Rpc/Tests.antt =====
-- Two providers, one of which has failed, and their use.
use rpc_state_indexer.Prelude.{
  ℕ, zero, suc, ◌+◌, ◌*◌, ◌≡◌, ◌≤◌, ◌<◌, refl, true, false, none, some, [], ◌∷◌, take, ok, arith,
}
use rpc_state_indexer.Prelude.Int.{pos, negsuc}
use rpc_state_indexer.Prelude.Text.{Text, text}
use rpc_state_indexer.Json.{arr, nil, obj, field, end, str, int}
use rpc_state_indexer.Rpc.Classification.{
  Failure, response_error, other_error, http_error, classify_rpc_failure, normalize_rpc_error,
  limit_failure,
}
use rpc_state_indexer.Rpc.Classification.Laws.{
  retries, fails_over, classify_rpc_failure-kind, classify_rpc_failure-normalize_rpc_error,
}
use rpc_state_indexer.Rpc.Endpoint.{RpcEndpoint, can_serve, failed, second}
use rpc_state_indexer.Rpc.Endpoint.Health.{
  success, failure, replay, can_serve-failed, can_serve-replay,
}
use rpc_state_indexer.Rpc.Pool.{EndpointPool, select, selectable, select_distinct_groups}
use rpc_state_indexer.Rpc.Pool.Select.{Selection, select-Selection}
use rpc_state_indexer.Rpc.Pool.Groups.{firsts, enough, Distinct, select_distinct_groups-firsts}
use rpc_state_indexer.Rpc.Client.{Net, Limits, Client, Request}
use rpc_state_indexer.Rpc.Client.Call.{call}
use rpc_state_indexer.Rpc.Client.Call.Retry.{Answered, call-Answered}

abbrev same : Text → Text
same t = t

abbrev capped : Failure
capped = response_error (negsuc 32004) (text "query exceeds max results 20000") none

capped_is_limit : classify_rpc_failure same capped ≡ limit_failure
unfolding classify_rpc_failure rpc_state_indexer.Rpc.Classification.archive_markers
    rpc_state_indexer.Rpc.Classification.limit_markers
capped_is_limit = refl

classify_rpc_failure-kind_example :
    let f = classify_rpc_failure same capped in
    (f.retryable ≡ retries f.kind)
    × (f.failover ≡ fails_over f.kind)
    × (f.retryable ≡ false → f.retry_after ≡ none)
classify_rpc_failure-kind_example = classify_rpc_failure-kind same capped

classify_rpc_failure-normalize_rpc_error_example :
    classify_rpc_failure same (normalize_rpc_error same capped) ≡ classify_rpc_failure same capped
classify_rpc_failure-normalize_rpc_error_example =
    classify_rpc_failure-normalize_rpc_error same capped

abbrev endpoint : Text → Text → RpcEndpoint
endpoint name group = record {
  name = name;
  provider_group = group;
  supports_http_batch = true;
  supports_eip1898 = true;
  archive_from_block = some 10;
  healthy = true;
  consecutive_failures = 0;
  cooldown_until = 0;
  archive_unavailable_through = none;
}

abbrev first_node : RpcEndpoint
first_node = endpoint (text "a") (text "x")

abbrev second_node : RpcEndpoint
second_node = endpoint (text "b") (text "y")

abbrev pool : EndpointPool
pool = record {
  endpoints = first_node ∷ endpoint (text "c") (text "x") ∷ second_node ∷ [];
  cursor = 2;
}

can_serve-failed_example :
    let left = failed 7 true (some 20) false first_node in
    (8 < left.cooldown_until → can_serve 8 left (some 30) ≡ false)
    × (7 + 2 * second ≤ left.cooldown_until)
    × (left.cooldown_until ≤ 7 + 60 * second)
can_serve-failed_example = can_serve-failed 7 8 (some 20) (some 30) false first_node

can_serve-replay_example :
    can_serve 99
      (replay
        (success ∷ failure 9 false (some 12) true ∷ [])
        (failed 7 true (some 20) true first_node))
      (some 15)
    ≡ false
can_serve-replay_example =
    can_serve-replay 7 99 20 15 true (success ∷ failure 9 false (some 12) true ∷ []) first_node
      (omega arith)

select-Selection_example :
    Selection
      (selectable 0 (some 15) true (text "b" ∷ []))
      pool
      (select 0 (some 15) true (text "b" ∷ []) pool)
select-Selection_example = select-Selection 0 (some 15) true (text "b" ∷ []) pool (omega arith)

selects_first : (select 0 (some 15) true (text "b" ∷ []) pool).0 ≡ ok first_node
unfolding select can_serve
selects_first = refl

select_distinct_groups-firsts_example :
    (select_distinct_groups 0 2 (some 15) pool ≡ enough 2 (firsts 0 (some 15) [] pool.endpoints))
    × Distinct 0 (some 15) [] (firsts 0 (some 15) [] pool.endpoints)
    × Distinct 0 (some 15) [] (take 2 (firsts 0 (some 15) [] pool.endpoints))
select_distinct_groups-firsts_example =
    select_distinct_groups-firsts 0 2 (some 15) pool (omega arith)

selects_two : select_distinct_groups 0 2 (some 15) pool ≡ ok (first_node ∷ second_node ∷ [])
unfolding select_distinct_groups can_serve
selects_two = refl

-- A node that answers 429 once, then with a result.
abbrev busy_then_fine : Net ℕ
busy_then_fine = record {
  now = λ s. s;
  sleep = λ d s. d + s;
  post = λ e body s. (
    elim s [
      | zero ↦ ok (record {
        status_code = 429;
        reason_phrase = text "busy";
        retry_after = none;
        body = none;
      })
      | suc _ ↦ ok (record {
        status_code = 200;
        reason_phrase = text "OK";
        retry_after = none;
        body =
            some (
              obj (field (text "id") (int (pos 2)) (field (text "result") (str (text "0x1")) end)));
      })
    ],
    s + 1,
  );
  casefold = same;
  data_text = λ v. [];
}

abbrev limits : Limits
limits = record { max_retries = 3; retry_base = 250000000 }

abbrev request : Request
request = record {
  method = text "eth_blockNumber";
  params = arr nil;
  historical_block = none;
  require_eip1898 = false;
}

abbrev client : Client ℕ
client = record { endpoint_pool = pool; request_id = 0; net_state = 0 }

call-Answered_example :
    let r = call busy_then_fine limits request client in
    Answered busy_then_fine limits request r
    × (r.1.request_id ≤ client.request_id + limits.max_retries)
call-Answered_example = call-Answered busy_then_fine limits request client

-- The busy endpoint is left for the next one, which answers.
calls_twice :
    let r = call busy_then_fine limits request client in
    (r.0 ≡ ok (str (text "0x1"), first_node)) × (r.1.request_id ≡ 2)
unfolding call select can_serve rpc_state_indexer.Rpc.Pool.record_failure
calls_twice = (refl, refl)
