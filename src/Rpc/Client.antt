-- ===== src/Rpc/Client.antt =====
-- `AsyncRpcClient` of rpc/client.py. The HTTP library, the clock and the text of an error's `data`
-- are the record `Net`: they read and write a state `S` of their own. Times are nanoseconds.
pub mod Call
use rpc_state_indexer.Prelude.{
  ℕ, zero, suc, ◌+◌, ◌*◌, ◌^◌, Bool, true, false, not, ◌&&◌, ◌||◌, Option, none, some, List, [],
  ◌∷◌, ◌++◌, Result, ok, err, min, ltb, leb, ◌==◌, if◌then◌else◌,
}
use rpc_state_indexer.Prelude.Int.{ℤ, pos, negsuc}
use rpc_state_indexer.Prelude.Text.{Text, text, text_eq}
use rpc_state_indexer.Prelude.Exec.{Exec, pure, raise, lift, ◌>>=◌, ◌>>◌}
use rpc_state_indexer.Json.{
  Json, null, bool, int, real, str, arr, obj, nil, cons, end, field, Elements, elements, Fields,
  find, get,
}
use rpc_state_indexer.Rpc.Classification.{
  FailureKind, archive_unavailable, RpcFailure, Failure, http_error, transport_error,
  response_error, other_error, archive_state_unavailable, show_int, classify_rpc_failure,
  normalize_rpc_error,
}
use rpc_state_indexer.Rpc.Endpoint.{RpcEndpoint, second}
use rpc_state_indexer.Rpc.Pool.{EndpointPool, PoolFault, select, record_success, record_failure}

-- An answer over HTTP: `retry_after` is the header where it is a number, and `body` what
-- `response.json()` returns, `none` where it raises.
pub record HttpResponse : Type 0 where
  pub status_code : ℕ
  pub reason_phrase : Text
  pub retry_after : Option ℤ
  pub body : Option Json

-- `httpx.TimeoutException` and `httpx.NetworkError`, or another exception with its text.
pub data HttpFault : Type 0 where
  no_answer : HttpFault
  other_fault : Text → HttpFault

pub record Net (S : Type 0) : Type 0 where
  pub now : S → ℕ
  pub sleep : ℕ → S → S
  pub post : RpcEndpoint → Json → Exec S HttpFault HttpResponse
  pub casefold : Text → Text
  pub data_text : Json → Text

-- The constructor's parameters and the state that the client keeps.
pub record Limits : Type 0 where
  pub max_retries : ℕ
  pub retry_base : ℕ

pub record Client (S : Type 0) : Type 0 where
  pub endpoint_pool : EndpointPool
  pub request_id : ℕ
  pub net_state : S

-- The exceptions of `call`: a failure passed on, or `RpcAttemptsExhausted`.
pub data CallFault : Type 0 where
  raised : Failure → CallFault
  attempts_exhausted : CallFault

pub record Request : Type 0 where
  pub method : Text
  pub params : Json
  pub historical_block : Option ℕ
  pub require_eip1898 : Bool

-- `max(0.0, min(60.0, seconds))`.
abbrev pub clamp_wait : Option ℤ → Option ℕ
clamp_wait none = none
clamp_wait (some (pos n)) = some (min (60 * second) n)
clamp_wait (some (negsuc n)) = some 0

-- What `_post` makes of the answer.
unfoldable pub read_answer : Result HttpFault HttpResponse → Result Failure Json
read_answer (err no_answer) = err (transport_error (text "transport failure"))
read_answer (err (other_fault message)) = err (other_error message)
read_answer (ok r) =
    if ltb r.status_code 200 || leb 300 r.status_code
    then err (http_error r.status_code r.reason_phrase (clamp_wait r.retry_after))
    else elim r.body [
      | none ↦ err (transport_error (text "returned invalid JSON"))
      | some body ↦ ok body
    ]

abbrev pub protocol : Failure
protocol = transport_error (text "protocol error")

-- `value in {None, "2.0"}`, which raises `TypeError` for what cannot be hashed.
unfoldable pub check_version : Json → Result Failure (Unit {0})
check_version null = ok tt
check_version (str v) = if text_eq v (text "2.0") then ok tt else err protocol
check_version (arr v) = err (other_error (text "unhashable type: 'list'"))
check_version (obj v) = err (other_error (text "unhashable type: 'dict'"))
check_version v = err protocol

-- `value == request_id`, where Python also takes `True` for 1 and a whole real number for its
-- integer; `real` holds what `repr` prints.
unfoldable pub equals_id : ℕ → Json → Bool
equals_id request_id (int (pos n)) = n == request_id
equals_id request_id (bool true) = request_id == 1
equals_id request_id (bool false) = request_id == 0
equals_id request_id (real r) = text_eq r (show_int (pos request_id) ++ text ".0")
equals_id request_id v = false

unfoldable pub read_error : (Json → Text) → Json → Failure
read_error data_text (obj fields) = elim (get (text "code") fields) [
  | int code ↦ elim (get (text "message") fields) [
    | str message ↦
        response_error code message
          (elim (get (text "data") fields) [ null ↦ none | v ↦ some (data_text v) ])
    | _ ↦ protocol
  ]
  | _ ↦ protocol
]
read_error data_text v = protocol

unfoldable pub read_result : Option Json → Result Failure Json
read_result none = err protocol
read_result (some v) = ok v

-- The checks of `call_on_endpoint` on the answer's body.
unfoldable pub read_body : (Json → Text) → ℕ → Json → Result Failure Json
unfolding check_version equals_id read_error read_result
read_body data_text request_id (obj fields) = elim (check_version (get (text "jsonrpc") fields)) [
  | err fault ↦ err fault
  | ok _ ↦
      if not (equals_id request_id (get (text "id") fields))
      then err protocol
      else elim (get (text "error") fields) [
        | null ↦ read_result (find (text "result") fields)
        | v ↦ err (read_error data_text v)
      ]
]
read_body data_text request_id v = err protocol

abbrev pub payload : ℕ → Text → Json → Json
payload request_id method params = obj (
    field (text "jsonrpc") (str (text "2.0")) (
      field (text "id") (int (pos request_id))
        (field (text "method") (str method) (field (text "params") params end))))

-- The objects of an array, `none` where an entry is none.
abbrev pub objects : List Json → Option (List Fields)
objects [] = some []
objects (obj f ∷ vs) = elim (objects vs) [ none ↦ none | some fs ↦ some (f ∷ fs) ]
objects (v ∷ vs) = none

unfoldable pub read_batch : Json → Result Failure (List Fields)
read_batch (arr vs) = elim (objects (elements vs)) [ none ↦ err protocol | some fs ↦ ok fs ]
read_batch v = err protocol

module _ {S : Type 0} (net : Net S) where
  -- `_post`.
  unfoldable pub send : RpcEndpoint → Json → Client S → Result Failure Json × Client S
  unfolding read_answer
  send e body s =
      let (answer, after) = net.post e body s.net_state in
      (
        read_answer answer,
        record { endpoint_pool = s.endpoint_pool; request_id = s.request_id; net_state = after },
      )

  abbrev next_id : Client S → Client S
  next_id s = record {
    endpoint_pool = s.endpoint_pool;
    request_id = s.request_id + 1;
    net_state = s.net_state;
  }

  unfoldable pub call_on_endpoint :
      RpcEndpoint → Text → Json → Client S → Result Failure Json × Client S
  unfolding send read_body
  call_on_endpoint e method params s =
      let t = next_id s in
      let (body, after) = send e (payload t.request_id method params) t in
      (elim body [ err fault ↦ err fault | ok v ↦ read_body net.data_text t.request_id v ], after)

  -- `requests` is a list of objects there; the empty one is not sent.
  unfoldable pub batch_on_endpoint :
      RpcEndpoint → Elements → Client S → Result Failure (List Fields) × Client S
  unfolding send read_batch
  batch_on_endpoint e nil s = (ok [], s)
  batch_on_endpoint e (cons first rest) s =
      let (body, after) = send e (arr (cons first rest)) s in
      (elim body [ err fault ↦ err fault | ok v ↦ read_batch v ], after)
