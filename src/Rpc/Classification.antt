-- ===== src/Rpc/Classification.antt =====
-- rpc/classification.py and the exceptions of rpc/errors.py. `casefold` is Python's `str.casefold`.
pub mod Laws
use rpc_state_indexer.Prelude.{
  ℕ, zero, suc, ◌/◌, ◌%◌, ◌+◌, Bool, true, false, ◌&&◌, ◌||◌, Option, none, some, List, [], ◌∷◌,
  ◌++◌, ◌==◌, if◌then◌else◌,
}
use rpc_state_indexer.Prelude.Int.{ℤ, pos, negsuc}
use rpc_state_indexer.Prelude.Text.{Text, text}

pub data FailureKind : Type 0 where
  transient rate_limit archive_unavailable provider_limit execution_revert permanent : FailureKind

-- `retry_after` in nanoseconds.
pub record RpcFailure : Type 0 where
  pub kind : FailureKind
  pub retryable : Bool
  pub failover : Bool
  pub retry_after : Option ℕ

-- The exceptions that `classify_rpc_failure` tells apart. A text is what `str` prints, and the
-- `data` of a response what `str` prints for it. `transport_error` is `RpcTransportError`,
-- `RpcProtocolError`, or a timeout or network error of the HTTP library.
pub data Failure : Type 0 where
  archive_state_unavailable : Text → Failure
  rpc_provider_limit : Text → Failure
  http_error : ℕ → Text → Option ℕ → Failure
  transport_error : Text → Failure
  response_error : ℤ → Text → Option Text → Failure
  other_error : Text → Failure

abbrev pub digits_loop : ℕ → ℕ → Text → Text
digits_loop zero n acc = acc
digits_loop (suc fuel) n acc =
    let digit = 48 + n % 10 in
    let rest = digits_loop fuel (n / 10) (digit ∷ acc) in if n / 10 == 0 then digit ∷ acc else rest

-- `str` of an integer.
abbrev pub show_int : ℤ → Text
show_int (pos n) = digits_loop (suc n) n []
show_int (negsuc n) = 45 ∷ digits_loop (suc (suc n)) (suc n) []

-- `str(exc)`.
abbrev pub shown : Failure → Text
shown (archive_state_unavailable message) = message
shown (rpc_provider_limit message) = message
shown (http_error status reason retry_after) =
    text "JSON-RPC HTTP " ++ show_int (pos status) ++ text ": " ++ reason
shown (transport_error message) = message
shown (response_error code message detail) =
    text "JSON-RPC error " ++ show_int code ++ text ": " ++ message
shown (other_error message) = message

abbrev pub starts_with : Text → Text → Bool
starts_with [] t = true
starts_with (c ∷ s) [] = false
starts_with (c ∷ s) (d ∷ t) = c == d && starts_with s t

-- `needle in haystack` of two texts.
abbrev pub within : Text → Text → Bool
within needle [] = starts_with needle []
within needle (c ∷ t) = starts_with needle (c ∷ t) || within needle t

-- `any(marker in message for marker in markers)`.
abbrev pub any_within : List Text → Text → Bool
any_within [] message = false
any_within (m ∷ markers) message = within m message || any_within markers message

unfoldable pub archive_markers : List Text
archive_markers =
    text "missing trie node"
    ∷ text "historical state unavailable"
    ∷ text "state is not available"
    ∷ text "state unavailable"
    ∷ text "pruned"
    ∷ text "required historical state"
    ∷ []

unfoldable pub limit_markers : List Text
limit_markers =
    text "query returned more than"
    ∷ text "exceeds max results"
    ∷ text "too many results"
    ∷ text "too many logs"
    ∷ text "max logs per response"
    ∷ text "response size exceeded"
    ∷ text "request entity too large"
    ∷ text "block range is too wide"
    ∷ text "block range too wide"
    ∷ text "please limit"
    ∷ text "limit exceeded"
    ∷ text "request timed out"
    ∷ text "out of gas"
    ∷ text "gas required exceeds"
    ∷ []

-- `code in {-32005, -32016}`.
unfoldable pub is_limit_code : ℤ → Bool
is_limit_code (pos n) = false
is_limit_code (negsuc n) = n == 32004 || n == 32015

unfoldable pub revert_markers : List Text
revert_markers = text "execution reverted" ∷ text "revert" ∷ []

-- `exc.status_code in {408, 425, 500, 502, 503, 504}`.
unfoldable pub is_transient_status : ℕ → Bool
is_transient_status status =
    status == 408
    || status == 425
    || status == 500
    || status == 502
    || status == 503
    || status == 504

abbrev pub archive_failure : RpcFailure
archive_failure = record {
  kind = archive_unavailable;
  retryable = false;
  failover = true;
  retry_after = none;
}

abbrev pub limit_failure : RpcFailure
limit_failure = record {
  kind = provider_limit;
  retryable = false;
  failover = false;
  retry_after = none;
}

abbrev pub permanent_failure : RpcFailure
permanent_failure = record {
  kind = permanent;
  retryable = false;
  failover = false;
  retry_after = none;
}

abbrev pub revert_failure : RpcFailure
revert_failure = record {
  kind = execution_revert;
  retryable = false;
  failover = false;
  retry_after = none;
}

abbrev pub transient_failure : Option ℕ → RpcFailure
transient_failure wait = record {
  kind = transient;
  retryable = true;
  failover = true;
  retry_after = wait;
}

abbrev pub rate_failure : Option ℕ → RpcFailure
rate_failure wait = record {
  kind = rate_limit;
  retryable = true;
  failover = true;
  retry_after = wait;
}

-- The cases that read the message come after those that read the exception's class.
unfoldable pub classify_http : ℕ → Option ℕ → RpcFailure
classify_http status retry_after =
    if status == 429
    then rate_failure retry_after
    else if is_transient_status status
    then transient_failure retry_after
    else if status == 413
    then limit_failure
    else permanent_failure

module _ (casefold : Text → Text) where
  -- `_message`.
  unfoldable pub message_of : Failure → Text
  message_of (response_error code message (some detail)) =
      casefold (shown (response_error code message none) ++ text " " ++ detail)
  message_of exc = casefold (shown exc)

  unfoldable pub classify_response : ℤ → Text → RpcFailure
  classify_response code message =
      if any_within archive_markers message
      then archive_failure
      else if any_within limit_markers message
      then limit_failure
      else if is_limit_code code
      then limit_failure
      else if any_within revert_markers message
      then revert_failure
      else permanent_failure

  unfoldable pub classify_other : Text → RpcFailure
  classify_other message =
      if any_within archive_markers message
      then archive_failure
      else if any_within limit_markers message
      then limit_failure
      else permanent_failure

  unfoldable pub classify_rpc_failure : Failure → RpcFailure
  unfolding message_of classify_response classify_other classify_http
  classify_rpc_failure (archive_state_unavailable message) = archive_failure
  classify_rpc_failure (rpc_provider_limit message) = limit_failure
  classify_rpc_failure (http_error status reason retry_after) = classify_http status retry_after
  classify_rpc_failure (transport_error message) = transient_failure none
  classify_rpc_failure (response_error code message detail) =
      classify_response code (message_of (response_error code message detail))
  classify_rpc_failure (other_error message) = classify_other (message_of (other_error message))

  abbrev pub promote : FailureKind → Failure → Failure
  promote archive_unavailable exc = archive_state_unavailable (shown exc)
  promote provider_limit exc = rpc_provider_limit (shown exc)
  promote kind exc = exc

  unfoldable pub normalize_rpc_error : Failure → Failure
  normalize_rpc_error exc = let failure = classify_rpc_failure exc in promote failure.kind exc
