-- ===== src/Execution/LegacyBatch/Order.antt =====
-- The result of each call is read from the response that carries its ID, in whatever order the
-- responses come.
use mathlib.Core.Path.{subst}
use rpc_state_indexer.Prelude.{
  ℕ, zero, suc, ◌+◌, ◌≡◌, refl, sym, ap, ◌∙◌, ◌&&◌, inl, inr, Option, none, some, List, [], ◌∷◌,
  Result, ok, err, >>=-returns, raise_if, length, get_elem?, Bool-cases, Option-cases, leb, ◌==◌,
  arith,
}
use rpc_state_indexer.Prelude.Text.{text}
use rpc_state_indexer.Json.{Json, str, int, obj, Fields, find, get}
use rpc_state_indexer.Evm.Bytes.{Bytes, HexFault}
use rpc_state_indexer.Execution.Base.{
  ContractCall, RawCallResult, ExecutionFault, call_keys, result_keys,
}
use rpc_state_indexer.Execution.LegacyBatch.{
  id_of, check_jsonrpc, response_of, is_present, read_responses, read_failure, read_code, read_data,
  read_return, read_one, decode_response, any_missing, decode_all, decode_batch_responses,
}

-- Each entry is a response that was received, under its own ID.
record Backed (responses : List Fields) (by_id : List (ℕ × Fields)) : Type 0 where
  received :
      (i : ℕ) (r : Fields)
      → response_of i by_id ≡ some r
      → (k : ℕ) × (get_elem? responses k ≡ some r) × (id_of r ≡ some i)

Backed-cons :
    (responses : List Fields) (by_id : List (ℕ × Fields)) (i k : ℕ) (r : Fields)
    → Backed responses by_id
    → get_elem? responses k ≡ some r
    → id_of r ≡ some i
    → Backed responses ((i, r) ∷ by_id)
unfolding response_of
Backed-cons responses by_id i k r b got own = record {
  received = λ j x h. elim (Bool-cases (i == j)) [
    | inl e ↦
        let same : i ≡ j = ground arith in
        let found : some r ≡ some x = sym (rw e refl) ∙ h in
        (k, got ∙ found, ap id_of (let back : x ≡ r = cc found in back) ∙ own ∙ ap some same)
    | inr e ↦ b.received j x (rw e at h)
  ];
}

-- A response that the first loop takes.
read_step :
    (count : ℕ) (r : Fields) (rest : List Fields) (by_id out : List (ℕ × Fields))
    → read_responses count (r ∷ rest) by_id ≡ ok out
    → (i : ℕ) × (id_of r ≡ some i) × (read_responses count rest ((i, r) ∷ by_id) ≡ ok out)
unfolding read_responses
read_step count r rest by_id out h = elim (Option-cases (id_of r)) [
  | inl gone ↦ absurd (cc (rw (read_responses, gone) at h))
  | inr (i, own) ↦ elim (Bool-cases (leb 1 i && leb i count)) [
    | inr e ↦ absurd (cc (rw (read_responses, own, e) at h))
    | inl e ↦ elim (Bool-cases (is_present (response_of i by_id))) [
      | inl twice ↦ absurd (cc (rw (read_responses, own, e, twice) at h))
      | inr fresh ↦
          let (u, checked, later) =
            >>=-returns (check_jsonrpc (get (text "jsonrpc") r))
              (λ _. read_responses count rest ((i, r) ∷ by_id))
              (rw (read_responses, own, e, fresh) at h) in
          (i, own, later)
    ]
  ]
]

read_responses-Backed :
    (responses rest : List Fields) (count : ℕ) (by_id out : List (ℕ × Fields))
    → ((k : ℕ) (r : Fields)
        → get_elem? rest k ≡ some r
        → (k' : ℕ) × (get_elem? responses k' ≡ some r))
    → Backed responses by_id
    → read_responses count rest by_id ≡ ok out
    → Backed responses out
unfolding read_responses
read_responses-Backed responses [] count by_id out part b h = subst (Backed responses) (cc h) b
read_responses-Backed responses (r ∷ rest) count by_id out part b h =
    let (i, own, later) = read_step count r rest by_id out h in
    let (k, got) = part zero r refl in
    read_responses-Backed responses rest count ((i, r) ∷ by_id) out
      (λ k' r' at. part (suc k') r' at) (Backed-cons responses by_id i k r b got own) later

-- The call at each index has the result that a received response with the call's ID holds.
abbrev pub Answers : List Fields → List ContractCall → List RawCallResult → Type 0
Answers responses calls results =
    (i : ℕ) (call : ContractCall)
    → get_elem? calls i ≡ some call
    → (k : ℕ) × (r : Fields) × (result : RawCallResult) × (get_elem? responses k ≡ some r)
      × (id_of r ≡ some (1 + i))
      × (decode_response call r ≡ ok result)
      × (get_elem? results i ≡ some result)

abbrev Keyed : ContractCall → Result ExecutionFault RawCallResult → Type 0
Keyed call (ok result) = result.key ≡ call.key
Keyed call (err fault) = Unit

Keyed-ok :
    (call : ContractCall) (m : Result ExecutionFault RawCallResult)
    → Keyed call m
    → (result : RawCallResult) → m ≡ ok result
    → result.key ≡ call.key
Keyed-ok call m k result h = subst (Keyed call) h k

code_Keyed : (call : ContractCall) (code message : Json) → Keyed call (read_code call code message)
code_Keyed call (int code) (str message) = refl
code_Keyed call code message = tt

failure_Keyed : (call : ContractCall) (error : Json) → Keyed call (read_failure call error)
unfolding read_failure
failure_Keyed call (obj error) =
    code_Keyed call (get (text "code") error) (get (text "message") error)
failure_Keyed call error = tt

data_Keyed : (call : ContractCall) (raw : Result HexFault Bytes) → Keyed call (read_data call raw)
data_Keyed call (ok raw) = refl
data_Keyed call (err fault) = tt

return_Keyed : (call : ContractCall) (encoded : Json) → Keyed call (read_return call encoded)
unfolding read_return
return_Keyed call (str encoded) = data_Keyed call _
return_Keyed call encoded = tt

one_Keyed :
    (call : ContractCall) (result error : Option Json) → Keyed call (read_one call result error)
unfolding read_one
one_Keyed call none (some error) = failure_Keyed call error
one_Keyed call (some encoded) none = return_Keyed call encoded
one_Keyed call none none = tt
one_Keyed call (some encoded) (some error) = tt

decode_response_key :
    (call : ContractCall) (r : Fields) (result : RawCallResult)
    → decode_response call r ≡ ok result
    → result.key ≡ call.key
unfolding decode_response
decode_response_key call r result h =
    Keyed-ok call _ (one_Keyed call (find (text "result") r) (find (text "error") r)) result h

decode_step :
    (n : ℕ) (call : ContractCall) (calls : List ContractCall) (by_id : List (ℕ × Fields))
    (results : List RawCallResult)
    → decode_all n (call ∷ calls) by_id ≡ ok results
    → (r : Fields) × (result : RawCallResult) × (more : List RawCallResult) × (response_of n by_id
        ≡ some r)
      × (decode_response call r ≡ ok result)
      × (decode_all (n + 1) calls by_id ≡ ok more)
      × (result ∷ more ≡ results)
unfolding decode_all
decode_step n call calls by_id results h = elim (Option-cases (response_of n by_id)) [
  | inl gone ↦ absurd (cc (rw (decode_all, gone) at h))
  | inr (r, found) ↦
      let (result, decoded, later) =
        >>=-returns (decode_response call r) _ (rw (decode_all, found) at h) in
      let (more, all, same) = >>=-returns (decode_all (n + 1) calls by_id) _ later in
      (r, result, more, found, decoded, all, cc same)
]

-- The result at an index is that of the call and of the response under the ID.
abbrev Answer : ℕ → ℕ → ContractCall → List (ℕ × Fields) → List RawCallResult → Type 0
Answer request_id i call by_id results =
    (r : Fields) × (result : RawCallResult) × (response_of request_id by_id ≡ some r)
    × (decode_response call r ≡ ok result)
    × (get_elem? results i ≡ some result)

decode_all-Answers :
    (n : ℕ) (calls : List ContractCall) (by_id : List (ℕ × Fields)) (results : List RawCallResult)
    → decode_all n calls by_id ≡ ok results
    → (result_keys results ≡ call_keys calls)
      × ((i : ℕ) (call : ContractCall)
          → get_elem? calls i ≡ some call
          → Answer (n + i) i call by_id results)
unfolding decode_all
decode_all-Answers n [] by_id results h =
    (ap result_keys (let e : results ≡ [] = cc h in e), λ i call got. absurd (cc got))
decode_all-Answers n (call ∷ calls) by_id results h =
    let (r, result, more, found, decoded, all, same) = decode_step n call calls by_id results h in
    let (keys, rest) = decode_all-Answers (n + 1) calls by_id more all in
    (
      ap result_keys (sym same) ∙ rw (decode_response_key call r result decoded, keys) refl,
      λ i c got.
          elim i
              as (λ (j : ℕ).
                get_elem? (call ∷ calls) j ≡ some c → Answer (n + j) j c by_id results) [
                  | zero ↦ λ at.
                      let this : call ≡ c = cc at in
                      (
                        r,
                        result,
                        subst (λ (m : ℕ). response_of m by_id ≡ some r) (omega arith) found,
                        subst (λ (x : ContractCall). decode_response x r ≡ ok result) this decoded,
                        rw (sym same) refl,
                      )
                  | suc j ↦ λ at.
                      let (r', result', f, d, g) = rest j c at in
                      (
                        r',
                        result',
                        subst (λ (m : ℕ). response_of m by_id ≡ some r') (omega arith) f,
                        d,
                        rw (sym same) g,
                      )
                ]
            got,
    )

nothing : (i : ℕ) (r : Fields) → response_of i [] ≡ some r → ⊥
unfolding response_of
nothing i r got = cc got

-- When `decode_batch_responses` returns, it returns one result for each call, in the order of the
-- calls and with their keys, and the result of each is what the response that carries the call's
-- ID says: the order in which the responses came has no part in it.
pub decode_batch_responses-Answers :
    (responses : List Fields) (calls : List ContractCall) (results : List RawCallResult)
    → decode_batch_responses responses calls ≡ ok results
    → (result_keys results ≡ call_keys calls) × Answers responses calls results
unfolding decode_batch_responses
decode_batch_responses-Answers responses calls results h =
    let (by_id, reading, later) = >>=-returns (read_responses (length calls) responses []) _ h in
    let (u, whole, last) = >>=-returns (raise_if (any_missing 1 calls by_id) _) _ later in
    let (keys, each) = decode_all-Answers 1 calls by_id results last in
    let backed =
      read_responses-Backed responses responses (length calls) [] by_id (λ k r got. (k, got))
        (record { received = λ i r got. absurd (nothing i r got) }) reading in
    (
      keys,
      λ i call got.
          let (r, result, found, decoded, at) = each i call got in
          let (k, sent, own) = backed.received (1 + i) r found in
          (k, r, result, sent, own, decoded, at),
    )
