-- ===== src/Rpc/Classification/Laws.antt =====
-- What the failure kinds say about the retry, and that promoting an exception keeps its failure.
use rpc_state_indexer.Prelude.{ℕ, Bool, true, false, ◌≡◌, refl, sym, Option, none, if◌then◌else◌}
use rpc_state_indexer.Prelude.Text.{Text}
use rpc_state_indexer.Rpc.Classification.{
  FailureKind, transient, rate_limit, archive_unavailable, provider_limit, execution_revert,
  permanent, RpcFailure, Failure, archive_state_unavailable, rpc_provider_limit, http_error,
  transport_error, response_error, other_error, archive_failure, limit_failure, permanent_failure,
  revert_failure, transient_failure, rate_failure, classify_rpc_failure, promote,
  normalize_rpc_error,
}

-- What the kind alone says.
abbrev pub retries : FailureKind → Bool
retries transient = true
retries rate_limit = true
retries kind = false

abbrev pub fails_over : FailureKind → Bool
fails_over archive_unavailable = true
fails_over kind = retries kind

-- A failure whose flags follow from its kind, and which carries a hint only where it is retried.
record Regular (f : RpcFailure) : Type 0 where
  same_retry : f.retryable ≡ retries f.kind
  same_failover : f.failover ≡ fails_over f.kind
  no_hint : f.retryable ≡ false → f.retry_after ≡ none
  archive : f.kind ≡ archive_unavailable → f ≡ archive_failure
  limit : f.kind ≡ provider_limit → f ≡ limit_failure

Regular-if : (b : Bool) (f g : RpcFailure) → Regular f → Regular g → Regular (if b then f else g)
Regular-if true f g p q = p
Regular-if false f g p q = q

archive-Regular : Regular archive_failure
archive-Regular = record {
  same_retry = refl;
  same_failover = refl;
  no_hint = λ h. refl;
  archive = λ h. refl;
  limit = λ h. cc;
}

limit-Regular : Regular limit_failure
limit-Regular = record {
  same_retry = refl;
  same_failover = refl;
  no_hint = λ h. refl;
  archive = λ h. cc;
  limit = λ h. refl;
}

permanent-Regular : Regular permanent_failure
permanent-Regular = record {
  same_retry = refl;
  same_failover = refl;
  no_hint = λ h. refl;
  archive = λ h. cc;
  limit = λ h. cc;
}

revert-Regular : Regular revert_failure
revert-Regular = record {
  same_retry = refl;
  same_failover = refl;
  no_hint = λ h. refl;
  archive = λ h. cc;
  limit = λ h. cc;
}

transient-Regular : (wait : Option ℕ) → Regular (transient_failure wait)
transient-Regular wait = record {
  same_retry = refl;
  same_failover = refl;
  no_hint = λ h. cc;
  archive = λ h. cc;
  limit = λ h. cc;
}

rate-Regular : (wait : Option ℕ) → Regular (rate_failure wait)
rate-Regular wait = record {
  same_retry = refl;
  same_failover = refl;
  no_hint = λ h. cc;
  archive = λ h. cc;
  limit = λ h. cc;
}

ruleset failures = (
  Regular-if, archive-Regular, limit-Regular, permanent-Regular, revert-Regular, transient-Regular,
  rate-Regular,
)

module _ (casefold : Text → Text) where
  regular : (exc : Failure) → Regular (classify_rpc_failure casefold exc)
  unfolding classify_rpc_failure
  regular (archive_state_unavailable message) = archive-Regular
  regular (rpc_provider_limit message) = limit-Regular
  regular (http_error status reason retry_after) = search (failures) depth 12
  regular (transport_error message) = transient-Regular none
  regular (response_error code message detail) = search (failures) depth 12
  regular (other_error message) = search (failures) depth 12

  -- The kind of a failure alone says whether it is retried and whether the endpoint is left:
  -- transient failures and rate limits do both, unavailable archives only leave the endpoint, and
  -- the other kinds do neither; and only a failure that is retried carries a `Retry-After` hint.
  pub classify_rpc_failure-kind :
      (exc : Failure)
      → let f = classify_rpc_failure casefold exc in
        (f.retryable ≡ retries f.kind)
        × (f.failover ≡ fails_over f.kind)
        × (f.retryable ≡ false → f.retry_after ≡ none)
  classify_rpc_failure-kind exc = let r = regular exc in (r.same_retry, r.same_failover, r.no_hint)

  promoted :
      (exc : Failure) (k : FailureKind)
      → (classify_rpc_failure casefold exc).kind ≡ k
      → classify_rpc_failure casefold (promote casefold k exc) ≡ classify_rpc_failure casefold exc
  unfolding classify_rpc_failure
  promoted exc archive_unavailable h = sym ((regular exc).archive h)
  promoted exc provider_limit h = sym ((regular exc).limit h)
  promoted exc transient h = refl
  promoted exc rate_limit h = refl
  promoted exc execution_revert h = refl
  promoted exc permanent h = refl

  -- Promoting an exception to a public type keeps its classification whole.
  pub classify_rpc_failure-normalize_rpc_error :
      (exc : Failure)
      → classify_rpc_failure casefold (normalize_rpc_error casefold exc)
        ≡ classify_rpc_failure casefold exc
  unfolding normalize_rpc_error
  classify_rpc_failure-normalize_rpc_error exc = promoted exc _ refl
