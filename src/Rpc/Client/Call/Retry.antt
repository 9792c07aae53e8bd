-- ===== src/Rpc/Client/Call/Retry.antt =====
-- What a call of `AsyncRpcClient.call` amounts to: the result of one request at an endpoint, or an
-- error that no further attempt could mend, after at most `max_retries` requests.
use rpc_state_indexer.Prelude.{
  ℕ, zero, suc, ◌+◌, ◌≤◌, ◌≡◌, refl, sym, ap, ◌∙◌, ◌⊎◌, inl, inr, false, Option, none, some, List,
  [], Result, ok, err, Bool-cases, arith,
}
use rpc_state_indexer.Prelude.Text.{Text}
use rpc_state_indexer.Json.{Json}
use rpc_state_indexer.Rpc.Classification.{
  Failure, archive_unavailable, archive_state_unavailable, rpc_provider_limit, http_error,
  transport_error, response_error, other_error, classify_rpc_failure, normalize_rpc_error,
}
use rpc_state_indexer.Rpc.Endpoint.{RpcEndpoint}
use rpc_state_indexer.Rpc.Pool.{PoolFault}
use rpc_state_indexer.Rpc.Client.{
  Net, Limits, Client, CallFault, raised, attempts_exhausted, Request, call_on_endpoint, send,
}
use rpc_state_indexer.Rpc.Client.Call.{
  note_success, note_failure, select_endpoint, give_up, after_failure, after_call, after_select,
  call_loop, call,
}

module _ {S : Type 0} (net : Net S) (limits : Limits) (request : Request) where
  -- The kinds of failure that end a call with their own exception.
  abbrev pub Final : CallFault → Type 0
  Final attempts_exhausted = Unit
  Final (raised exc) =
      let failure = classify_rpc_failure net.casefold exc in
      (failure.kind ≡ archive_unavailable)
      ⊎ ((failure.retryable ≡ false) × (failure.failover ≡ false))

  -- The result is what one request at the endpoint returned, and that is noted as a success.
  abbrev pub Answered : Result CallFault (Json × RpcEndpoint) × Client S → Type 0
  Answered (ok (v, e), t) =
      (before : Client S) × (after : Client S) × (call_on_endpoint net e request.method
          request.params before
        ≡ (ok v, after))
      × (t ≡ note_success net e after)
  Answered (err fault, t) = Final fault

  abbrev pub Within : ℕ → Client S → Result CallFault (Json × RpcEndpoint) × Client S → Type 0
  Within n s (answer, t) = Answered (answer, t) × (t.request_id ≤ s.request_id + n)

  call_on_endpoint_id :
      (e : RpcEndpoint) (s : Client S)
      → (call_on_endpoint net e request.method request.params s).1.request_id ≡ s.request_id + 1
  unfolding call_on_endpoint send
  call_on_endpoint_id e s = refl

  after_failure-Within :
      (retry : List Text
        → Option Failure
        → Client S
        → Result CallFault (Json × RpcEndpoint) × Client S)
      (n attempt : ℕ) (excluded : List Text) (e : RpcEndpoint) (exc : Failure) (s : Client S)
      → ((excluded' : List Text) (last : Option Failure) (s' : Client S)
          → Within n s' (retry excluded' last s'))
      → Within n s (after_failure net limits request retry attempt excluded e exc s)
  unfolding after_failure note_failure
  after_failure-Within retry n attempt excluded e exc s later =
      let f = classify_rpc_failure net.casefold (normalize_rpc_error net.casefold exc) in
      elim (Bool-cases f.retryable) [
        | inl r ↦ rw (after_failure, r) (later _ _ _)
        | inr r ↦ elim (Bool-cases f.failover) [
          | inl o ↦ rw (after_failure, r, o) (later _ _ _)
          | inr o ↦ rw (after_failure, r, o) (inr (r, o), omega arith)
        ]
      ]

  after_call-Within :
      (retry : List Text
        → Option Failure
        → Client S
        → Result CallFault (Json × RpcEndpoint) × Client S)
      (n attempt : ℕ) (excluded : List Text) (e : RpcEndpoint) (s : Client S)
      (answer : Result Failure Json × Client S)
      → call_on_endpoint net e request.method request.params s ≡ answer
      → ((excluded' : List Text) (last : Option Failure) (s' : Client S)
          → Within n s' (retry excluded' last s'))
      → Within (suc n) s (after_call net limits request retry attempt excluded e answer)
  unfolding after_call note_success
  after_call-Within retry n attempt excluded e s (ok v, t) h later =
      let i : t.request_id ≡ s.request_id + 1 =
        ap (λ (r : Result Failure Json × Client S). r.1.request_id) (sym h)
        ∙ call_on_endpoint_id e s in
      ((s, t, h, refl), omega arith)
  after_call-Within retry n attempt excluded e s (err exc, t) h later =
      let i : t.request_id ≡ s.request_id + 1 =
        ap (λ (r : Result Failure Json × Client S). r.1.request_id) (sym h)
        ∙ call_on_endpoint_id e s in
      let (w, b) = after_failure-Within retry n attempt excluded e exc t later in (w, omega arith)

  after_select-Within :
      (retry : List Text
        → Option Failure
        → Client S
        → Result CallFault (Json × RpcEndpoint) × Client S)
      (n attempt : ℕ) (excluded : List Text) (s : Client S) (chosen : Result PoolFault RpcEndpoint)
      → ((excluded' : List Text) (last : Option Failure) (s' : Client S)
          → Within n s' (retry excluded' last s'))
      → Within (suc n) s (after_select net limits request retry attempt excluded (chosen, s))
  unfolding after_select
  after_select-Within retry n attempt excluded s (err fault) later = (tt, omega arith)
  after_select-Within retry n attempt excluded s (ok e) later =
      after_call-Within retry n attempt excluded e s _ refl later

  give_up-Final : (last : Option Failure) → Final (give_up net last)
  unfolding classify_rpc_failure
  give_up-Final none = tt
  give_up-Final (some (archive_state_unavailable message)) = inl refl
  give_up-Final (some (rpc_provider_limit message)) = tt
  give_up-Final (some (http_error status reason retry_after)) = tt
  give_up-Final (some (transport_error message)) = tt
  give_up-Final (some (response_error code message detail)) = tt
  give_up-Final (some (other_error message)) = tt

  call_loop-Within :
      (left attempt : ℕ) (excluded : List Text) (last : Option Failure) (s : Client S)
      → Within left s (call_loop net limits request left attempt excluded last s)
  unfolding call_loop select_endpoint
  call_loop-Within zero attempt excluded last s = (give_up-Final last, omega arith)
  call_loop-Within (suc left) attempt excluded last s =
      after_select-Within _ left attempt excluded _ _
        (λ excluded' last' s'. call_loop-Within left (attempt + 1) excluded' last' s')

  -- `call` sends at most `max_retries` requests. What it returns is the answer of one request at
  -- the endpoint that it returns, which is noted as a success of that endpoint last. An exception
  -- of its own kind ends it only for an unavailable archive or for a failure that neither a retry
  -- nor another endpoint could mend; all else is `RpcAttemptsExhausted`.
  pub call-Answered :
      (s : Client S)
      → let r = call net limits request s in
        Answered r × (r.1.request_id ≤ s.request_id + limits.max_retries)
  unfolding call
  call-Answered s = call_loop-Within limits.max_retries 0 [] none s
