-- ===== src/Execution/Multicall/Execute.antt =====
-- `_eth_call`, with its failover, and `_execute_once` of execution/multicall3.py.
use rpc_state_indexer.Prelude.{
  ℕ, zero, suc, ◌+◌, ◌-◌, ◌*◌, ◌^◌, Bool, true, false, not, ◌&&◌, Option, none, some, List, ◌∷◌,
  Result, ok, err, min, max, if◌then◌else◌,
}
use rpc_state_indexer.Prelude.Text.{Text, text, text_eq}
use rpc_state_indexer.Json.{Json}
use rpc_state_indexer.Domain.{BlockRef}
use rpc_state_indexer.Evm.Bytes.{Bytes}
use rpc_state_indexer.Rpc.Classification.{
  FailureKind, provider_limit, archive_unavailable, Failure, RpcFailure, classify_rpc_failure,
  normalize_rpc_error,
}
use rpc_state_indexer.Rpc.Endpoint.{RpcEndpoint, second}
use rpc_state_indexer.Rpc.Pool.{PoolFault}
use rpc_state_indexer.Rpc.Client.{Net, Limits, Client}
use rpc_state_indexer.Rpc.Client.Call.{select_endpoint, note_success, note_failure, pause}
use rpc_state_indexer.Execution.Base.{
  ExecutionFault, no_healthy_endpoint, provider_limit_reached, rpc,
}
use rpc_state_indexer.Execution.Sandwich.{Caught, pinned_call, reference_for}

-- The answer of `_eth_call`: the result, the endpoint and the kind of reference.
abbrev pub Read : Type 0
Read = Text × RpcEndpoint × Text

abbrev pub reference_kind : RpcEndpoint → Text
reference_kind e = if e.supports_eip1898 then text "eip1898" else text "number_hash_sandwich"

module _ {S : Type 0} (net : Net S) (limits : Limits) where
  abbrev pub or_second :
      Result PoolFault RpcEndpoint × Client S
      → (Client S → Result PoolFault RpcEndpoint × Client S)
      → Result PoolFault RpcEndpoint × Client S
  or_second (ok e, s) again = (ok e, s)
  or_second (err fault, s) again = again s

  -- `_select`: an endpoint that takes block hashes if there is one.
  unfoldable pub select_pinned :
      BlockRef → List Text → Client S → Result PoolFault RpcEndpoint × Client S
  unfolding select_endpoint
  select_pinned anchor excluded s =
      or_second (select_endpoint net (some anchor.number) true excluded s)
        (λ s'. select_endpoint net (some anchor.number) false excluded s')

  abbrev pub or_zero_wait : Option ℕ → ℕ
  or_zero_wait none = 0
  or_zero_wait (some wait) = wait

  -- `_retry_delay`, in nanoseconds; `attempt` is at least 1.
  unfoldable pub retry_delay : ℕ → RpcFailure → Bool → ℕ
  retry_delay attempt failure same_endpoint =
      let backoff = limits.retry_base * 2 ^ (attempt - 1) in
      if not same_endpoint
      then min (2 * second) backoff
      else min (60 * second) (max (or_zero_wait failure.retry_after) backoff)

  -- `last_endpoint` and `last_failure`, which are set together.
  abbrev pub Last : Type 0
  Last = Option (RpcEndpoint × RpcFailure)

  -- The endpoint of this attempt: a busy one is taken again when no other can be selected.
  abbrev pub fall_back : Result PoolFault RpcEndpoint → Last → Option RpcEndpoint
  fall_back (ok e) last = some e
  fall_back (err fault) none = none
  fall_back (err fault) (some (e, failure)) = if failure.retryable then some e else none

  abbrev pub pause_before : ℕ → RpcEndpoint → Last → Client S → Client S
  pause_before attempt e none s = s
  pause_before attempt e (some (e', failure)) s =
      pause net (retry_delay attempt failure (text_eq e.name e'.name)) s

  abbrev Answer : Type 0
  Answer = Result ExecutionFault Read × Client S

  abbrev pub is_limit : FailureKind → Bool
  is_limit provider_limit = true
  is_limit kind = false

  -- `normalized`, as what is raised: an archive failure is promoted.
  abbrev pub promoted : FailureKind → Failure → ExecutionFault → ExecutionFault
  promoted archive_unavailable exc fault = rpc (normalize_rpc_error net.casefold exc)
  promoted kind exc fault = fault

  module _ (address : Text) (calldata : Bytes) (anchor : BlockRef) where
    unfoldable pub after_failure :
        (List Text → Last → Client S → Answer)
        → List Text
        → RpcEndpoint
        → Caught
        → Client S
        → Answer
    unfolding note_failure classify_rpc_failure
    after_failure retry excluded e caught s =
        let failure =
          classify_rpc_failure net.casefold (normalize_rpc_error net.casefold caught.seen) in
        let noted = note_failure net failure (some anchor.number) e s in
        if is_limit failure.kind
        then (err provider_limit_reached, noted)
        else if not failure.retryable && not failure.failover
        then (err (promoted failure.kind caught.seen caught.fault), noted)
        else retry (if failure.failover then e.name ∷ excluded else excluded) (some (e, failure))
            noted

    unfoldable pub after_read :
        (List Text → Last → Client S → Answer)
        → List Text
        → RpcEndpoint
        → Result Caught Text × Client S
        → Answer
    unfolding after_failure note_success
    after_read retry excluded e (ok v, s) = (ok (v, e, reference_kind e), note_success net e s)
    after_read retry excluded e (err caught, s) = after_failure retry excluded e caught s

    -- An attempt at an endpoint; the reference is made before the `try`.
    unfoldable pub attempt_at :
        (List Text → Last → Client S → Answer)
        → List Text
        → RpcEndpoint
        → Result ExecutionFault Json
        → Client S
        → Answer
    unfolding after_read pinned_call
    attempt_at retry excluded e (err fault) s = (err fault, s)
    attempt_at retry excluded e (ok reference) s =
        after_read retry excluded e (pinned_call net address calldata reference anchor e s)

    unfoldable pub attempt_with :
        (List Text → Last → Client S → Answer)
        → ℕ
        → List Text
        → Last
        → Option RpcEndpoint
        → Client S
        → Answer
    unfolding attempt_at reference_for retry_delay
    attempt_with retry attempt excluded last none s = (err no_healthy_endpoint, s)
    attempt_with retry attempt excluded last (some e) s =
        attempt_at retry excluded e (reference_for e anchor) (pause_before attempt e last s)

    unfoldable pub eth_call_loop : ℕ → ℕ → List Text → Last → Client S → Answer
    unfolding attempt_with select_pinned
    eth_call_loop zero attempt excluded last s = (err no_healthy_endpoint, s)
    eth_call_loop (suc left) attempt excluded last s =
        let (chosen, s') = select_pinned anchor excluded s in
        attempt_with (λ excluded' last' s''. eth_call_loop left (attempt + 1) excluded' last' s'')
          attempt excluded last (fall_back chosen last) s'

    -- `_eth_call`.
    unfoldable pub eth_call : List Text → Client S → Answer
    unfolding eth_call_loop
    eth_call excluded s = eth_call_loop limits.max_retries 0 excluded none s
