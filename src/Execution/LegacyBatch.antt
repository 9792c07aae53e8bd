-- ===== src/Execution/LegacyBatch.antt =====
-- `build_batch_requests` and `decode_batch_responses` of execution/legacy_rpc_batch.py, with the
-- references to a block of execution/verification.py.
pub mod Order
use rpc_state_indexer.Prelude.{
  ℕ, zero, suc, ◌+◌, ◌/◌, ◌%◌, Bool, true, false, not, ◌&&◌, ◌||◌, Option, none, some, List, [],
  ◌∷◌, ◌++◌, length, Result, ok, err, ◌>>=◌, ◌>>◌, raise_if, ltb, leb, ◌==◌, if◌then◌else◌,
}
use rpc_state_indexer.Prelude.Int.{ℤ, pos, negsuc}
use rpc_state_indexer.Prelude.Text.{Text, text, text_eq}
use rpc_state_indexer.Json.{
  Json, null, bool, int, real, str, arr, obj, nil, cons, end, field, Elements, Fields, find, get,
}
use rpc_state_indexer.Hex.{hex, hex_loop, digit_char, is_hash, lower}
use rpc_state_indexer.Domain.{BlockRef}
use rpc_state_indexer.Evm.Bytes.{Bytes, HexFault, hex_data_to_bytes}
use rpc_state_indexer.Execution.Base.{
  ContractCall, RawCallResult, ExecutionFault, anchor_hash_mismatch, missing_responses,
  duplicate_id, unknown_id, malformed_response, type_error,
}

-- `HASH_RE` and the lowering of what it takes.
unfoldable pub normalize_hash : Json → Result ExecutionFault Text
normalize_hash (str value) = if is_hash value then ok (lower value) else err anchor_hash_mismatch
normalize_hash value = err anchor_hash_mismatch

unfoldable pub eip1898_reference : BlockRef → Result ExecutionFault Json
unfolding normalize_hash
eip1898_reference anchor = do
  block_hash ← normalize_hash (str anchor.block_hash)
  ok (
      obj (
        field (text "blockHash") (str block_hash)
          (field (text "requireCanonical") (bool true) end)))

unfoldable pub number_reference : BlockRef → Json
number_reference anchor = str (hex anchor.number)

-- `calldata.hex()`.
abbrev pub bytes_hex : Bytes → Text
bytes_hex [] = []
bytes_hex (b ∷ bs) = digit_char (b / 16) ∷ digit_char (b % 16) ∷ bytes_hex bs

abbrev pub request_object : ℕ → ContractCall → Json → Json
request_object request_id call reference = obj (
    field (text "jsonrpc") (str (text "2.0")) (
      field (text "id") (int (pos request_id)) (
        field (text "method") (str (text "eth_call")) (
          field (text "params")
            (arr (
              cons
                (obj (
                  field (text "to") (str call.target)
                    (field (text "data") (str (text "0x" ++ bytes_hex call.calldata)) end)))
                (cons reference nil)))
            end))))

-- `enumerate(calls, start=1)`, from `request_id` on.
unfoldable pub request_objects : ℕ → List ContractCall → Json → Elements
request_objects request_id [] reference = nil
request_objects request_id (call ∷ calls) reference =
    cons (request_object request_id call reference)
      (request_objects (request_id + 1) calls reference)

-- The response-ID map that goes with it sends `i + 1` to the call at index `i`.
unfoldable pub build_batch_requests :
    List ContractCall → BlockRef → Bool → Result ExecutionFault Elements
unfolding eip1898_reference number_reference request_objects
build_batch_requests calls anchor eip1898 = do
  reference ← (if eip1898 then eip1898_reference anchor else ok (number_reference anchor))
  ok (request_objects 1 calls reference)

-- `type(request_id) is int`, for one that is no negative number.
unfoldable pub id_of : Fields → Option ℕ
id_of response = elim (get (text "id") response) [
  | int number ↦ elim number [ pos n ↦ some n | negsuc n ↦ none ]
  | _ ↦ none
]

-- `value not in {None, "2.0"}`, which raises `TypeError` for a value that cannot be hashed.
unfoldable pub check_jsonrpc : Json → Result ExecutionFault (Unit {0})
check_jsonrpc null = ok tt
check_jsonrpc (str v) = if text_eq v (text "2.0") then ok tt else err malformed_response
check_jsonrpc (arr v) = err type_error
check_jsonrpc (obj v) = err type_error
check_jsonrpc v = err malformed_response

-- `by_id.get(request_id)`.
unfoldable pub response_of : ℕ → List (ℕ × Fields) → Option Fields
response_of request_id [] = none
response_of request_id ((i, response) ∷ rest) =
    if i == request_id then some response else response_of request_id rest

abbrev pub is_present : Option Fields → Bool
is_present none = false
is_present (some response) = true

-- The first loop, over `count` calls.
unfoldable pub read_responses :
    ℕ → List Fields → List (ℕ × Fields) → Result ExecutionFault (List (ℕ × Fields))
unfolding id_of check_jsonrpc response_of
read_responses count [] by_id = ok by_id
read_responses count (response ∷ rest) by_id = elim (id_of response) [
  | none ↦ err unknown_id
  | some request_id ↦
      if not (leb 1 request_id && leb request_id count)
      then err unknown_id
      else if is_present (response_of request_id by_id)
      then err duplicate_id
      else check_jsonrpc (get (text "jsonrpc") response)
        >> read_responses count rest ((request_id, response) ∷ by_id)
]

abbrev pub failed_call : ContractCall → ℤ → Text → RawCallResult
failed_call call code message = record {
  key = call.key;
  success = false;
  returndata = [];
  error_code = some code;
  error_message = some message;
}

abbrev pub returned_call : ContractCall → Bytes → RawCallResult
returned_call call raw = record {
  key = call.key;
  success = true;
  returndata = raw;
  error_code = none;
  error_message = none;
}

abbrev pub read_code : ContractCall → Json → Json → Result ExecutionFault RawCallResult
read_code call (int code) (str message) = ok (failed_call call code message)
read_code call code message = err malformed_response

unfoldable pub read_failure : ContractCall → Json → Result ExecutionFault RawCallResult
read_failure call (obj error) =
    read_code call (get (text "code") error) (get (text "message") error)
read_failure call error = err malformed_response

abbrev pub read_data : ContractCall → Result HexFault Bytes → Result ExecutionFault RawCallResult
read_data call (err fault) = err malformed_response
read_data call (ok raw) = ok (returned_call call raw)

unfoldable pub read_return : ContractCall → Json → Result ExecutionFault RawCallResult
unfolding hex_data_to_bytes
read_return call (str encoded) = read_data call (hex_data_to_bytes encoded)
read_return call encoded = err malformed_response

-- Exactly one of `result` and `error`.
unfoldable pub read_one :
    ContractCall → Option Json → Option Json → Result ExecutionFault RawCallResult
unfolding read_failure read_return
read_one call none (some error) = read_failure call error
read_one call (some encoded) none = read_return call encoded
read_one call result error = err malformed_response

unfoldable pub decode_response : ContractCall → Fields → Result ExecutionFault RawCallResult
unfolding read_one
decode_response call response =
    read_one call (find (text "result") response) (find (text "error") response)

-- `missing` is not empty.
unfoldable pub any_missing : ℕ → List ContractCall → List (ℕ × Fields) → Bool
any_missing request_id [] by_id = false
any_missing request_id (call ∷ calls) by_id =
    not (is_present (response_of request_id by_id)) || any_missing (request_id + 1) calls by_id

-- The second loop, in the order of the IDs; an ID that is missing has been refused before it.
unfoldable pub decode_all :
    ℕ → List ContractCall → List (ℕ × Fields) → Result ExecutionFault (List RawCallResult)
unfolding decode_response response_of
decode_all request_id [] by_id = ok []
decode_all request_id (call ∷ calls) by_id = elim (response_of request_id by_id) [
  | none ↦ err missing_responses
  | some response ↦ decode_response call response >>= λ result.
      decode_all (request_id + 1) calls by_id >>= λ rest. ok (result ∷ rest)
]

unfoldable pub decode_batch_responses :
    List Fields → List ContractCall → Result ExecutionFault (List RawCallResult)
unfolding read_responses any_missing decode_all
decode_batch_responses responses calls = do
  by_id ← read_responses (length calls) responses []
  raise_if (any_missing 1 calls by_id) missing_responses
  decode_all 1 calls by_id
