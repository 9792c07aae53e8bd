-- ===== src/Rpc/Client/Call.antt =====
-- `AsyncRpcClient.call` of rpc/client.py: bounded attempts over the endpoints of the pool.
pub mod Retry
use rpc_state_indexer.Prelude.{
  ℕ, zero, suc, ◌+◌, ◌*◌, ◌^◌, Bool, true, false, not, ◌&&◌, ◌||◌, Option, none, some, List, [],
  ◌∷◌, ◌++◌, Result, ok, err, min, ltb, leb, ◌==◌, if◌then◌else◌,
}
use rpc_state_indexer.Prelude.Int.{ℤ, pos, negsuc}
use rpc_state_indexer.Prelude.Text.{Text, text, text_eq}
use rpc_state_indexer.Prelude.Exec.{Exec, pure, raise, lift, ◌>>=◌, ◌>>◌}
use rpc_state_indexer.Json.{
  Json, null, bool, int, real, str, arr, obj, nil, cons, end, field, Elements, elements, Fields,
  find, get,
}
use rpc_state_indexer.Rpc.Classification.{
  FailureKind, archive_unavailable, RpcFailure, Failure, http_error, transport_error,
  response_error, other_error, archive_state_unavailable, show_int, classify_rpc_failure,
  normalize_rpc_error,
}
use rpc_state_indexer.Rpc.Endpoint.{RpcEndpoint, second}
use rpc_state_indexer.Rpc.Pool.{EndpointPool, PoolFault, select, record_success, record_failure}
use rpc_state_indexer.Rpc.Client.{
  Net, Limits, Client, CallFault, raised, attempts_exhausted, Request, call_on_endpoint,
}

module _ {S : Type 0} (net : Net S) where
  abbrev pub with_pool : EndpointPool → Client S → Client S
  with_pool pool s = record {
    endpoint_pool = pool;
    request_id = s.request_id;
    net_state = s.net_state;
  }

  -- The pool's methods, at the present time.
  unfoldable pub select_endpoint :
      Option ℕ → Bool → List Text → Client S → Result PoolFault RpcEndpoint × Client S
  select_endpoint historical_block require_eip1898 exclude s =
      let (chosen, pool) =
        select (net.now s.net_state) historical_block require_eip1898 exclude s.endpoint_pool in
      (chosen, with_pool pool s)

  unfoldable pub note_success : RpcEndpoint → Client S → Client S
  note_success e s = with_pool (record_success e s.endpoint_pool) s

  abbrev pub is_archive : FailureKind → Bool
  is_archive archive_unavailable = true
  is_archive kind = false

  unfoldable pub note_failure : RpcFailure → Option ℕ → RpcEndpoint → Client S → Client S
  note_failure failure historical_block e s =
      with_pool
        (record_failure (net.now s.net_state) failure.failover historical_block
          (is_archive failure.kind) e s.endpoint_pool)
        s

  -- `asyncio.sleep`.
  abbrev pub pause : ℕ → Client S → Client S
  pause delay s = record {
    endpoint_pool = s.endpoint_pool;
    request_id = s.request_id;
    net_state = if delay == 0 then s.net_state else net.sleep delay s.net_state;
  }

  abbrev pub delay_of : Limits → ℕ → RpcFailure → ℕ
  delay_of limits attempt failure = elim failure.retry_after [
    | some wait ↦ wait
    | none ↦ min (10 * second) (limits.retry_base * 2 ^ attempt)
  ]

  abbrev pub Answer : Type 0
  Answer = Result CallFault (Json × RpcEndpoint) × Client S

  -- The end of `call`, with its `last_error`.
  abbrev pub give_up : Option Failure → CallFault
  give_up (some (archive_state_unavailable message)) = raised (archive_state_unavailable message)
  give_up last_error = attempts_exhausted

  module _ (limits : Limits) (request : Request) where
    -- The `except` clause; `retry` is the next turn of the loop.
    unfoldable pub after_failure :
        (List Text → Option Failure → Client S → Answer)
        → ℕ
        → List Text
        → RpcEndpoint
        → Failure
        → Client S
        → Answer
    unfolding note_failure classify_rpc_failure normalize_rpc_error
    after_failure retry attempt excluded e exc s =
        let normalized = normalize_rpc_error net.casefold exc in
        let failure = classify_rpc_failure net.casefold normalized in
        let noted = note_failure failure request.historical_block e s in
        if not failure.retryable && not failure.failover
        then (err (raised normalized), noted)
        else retry (if failure.failover then e.name ∷ excluded else excluded) (some normalized)
            (pause (delay_of limits attempt failure) noted)

    unfoldable pub after_call :
        (List Text → Option Failure → Client S → Answer)
        → ℕ
        → List Text
        → RpcEndpoint
        → Result Failure Json × Client S
        → Answer
    unfolding after_failure note_success
    after_call retry attempt excluded e (ok v, s) = (ok (v, e), note_success e s)
    after_call retry attempt excluded e (err exc, s) = after_failure retry attempt excluded e exc s

    unfoldable pub after_select :
        (List Text → Option Failure → Client S → Answer)
        → ℕ
        → List Text
        → Result PoolFault RpcEndpoint × Client S
        → Answer
    unfolding after_call call_on_endpoint
    after_select retry attempt excluded (err fault, s) = (err attempts_exhausted, s)
    after_select retry attempt excluded (ok e, s) =
        after_call retry attempt excluded e (call_on_endpoint net e request.method request.params s)

    -- `for attempt in range(self.max_retries)`, with the attempts that are left.
    unfoldable pub call_loop : ℕ → ℕ → List Text → Option Failure → Client S → Answer
    unfolding after_select select_endpoint
    call_loop zero attempt excluded last_error s = (err (give_up last_error), s)
    call_loop (suc left) attempt excluded last_error s =
        after_select
          (λ excluded' last_error' s'. call_loop left (attempt + 1) excluded' last_error' s')
          attempt excluded
          (select_endpoint request.historical_block request.require_eip1898 excluded s)

    unfoldable pub call : Client S → Answer
    unfolding call_loop
    call s = call_loop limits.max_retries 0 [] none s
