-- ===== src/Execution/Multicall/Entries.antt =====
-- Where the results of `_execute_once` of execution/multicall3.py stand in the responses.
use mathlib.Core.Path.{subst}
use rpc_state_indexer.Prelude.{
  ℕ, zero, suc, ◌+◌, ◌-◌, ◌≡◌, refl, Bool, true, inl, inr, ◌⊎◌, some, List, [], ◌∷◌, ◌++◌, ok,
  >>=-returns, length, get_elem?, take, drop, length-take, length-drop, arith,
}
use rpc_state_indexer.Prelude.Text.{Text, text}
use rpc_state_indexer.Domain.{BlockRef}
use rpc_state_indexer.Evm.Bytes.{Bytes}
use rpc_state_indexer.Rpc.Endpoint.{RpcEndpoint}
use rpc_state_indexer.Rpc.Client.{Net, Limits, Client}
use rpc_state_indexer.Execution.Base.{ContractCall, RawCallResult, call_keys, result_keys}
use rpc_state_indexer.Execution.Multicall.{
  Coder, sentinels, packed_calls, verified_results, zip_results, middle,
}
use rpc_state_indexer.Execution.Multicall.Execute.{eth_call}
use rpc_state_indexer.Execution.Multicall.Once.{Body, aggregate, only}

-- One result for each call, in the same order; the places are counted from `k` on.
abbrev pub Each :
    (ℕ → ContractCall → RawCallResult → Type 0)
    → ℕ
    → List ContractCall
    → List RawCallResult
    → Type 0
Each P k [] [] = Unit
Each P k [] (r ∷ results) = ⊥
Each P k (call ∷ calls) [] = ⊥
Each P k (call ∷ calls) (r ∷ results) = P k call r × Each P (k + 1) calls results

pub Each-keys :
    (P : ℕ → ContractCall → RawCallResult → Type 0)
    (named : (k : ℕ) (call : ContractCall) (r : RawCallResult) → P k call r → r.key ≡ call.key)
    (k : ℕ) (calls : List ContractCall) (results : List RawCallResult)
    → Each P k calls results
    → result_keys results ≡ call_keys calls
Each-keys P named k [] [] each = refl
Each-keys P named k [] (r ∷ results) each = absurd each
Each-keys P named k (call ∷ calls) [] each = absurd each
Each-keys P named k (call ∷ calls) (r ∷ results) (here, each) =
    rw (named k call r here, Each-keys P named (k + 1) calls results each) refl

pub only_one :
    (P : ℕ → ContractCall → RawCallResult → Type 0) (call : ContractCall)
    (results : List RawCallResult)
    → Each P 0 (call ∷ []) results
    → (r : RawCallResult) × (only results ≡ ok r) × P 0 call r
only_one P call [] each = absurd each
only_one P call (r ∷ []) (here, each) = (r, refl, here)
only_one P call (r ∷ r' ∷ results) (here, each) = absurd each

move : (j k : ℕ) → suc j + k ≡ j + (k + 1)
move j k = omega arith

take_part :
    {A : Type 0} (n k : ℕ) (xs : List A) (x : A)
    → get_elem? (take n xs) k ≡ some x
    → get_elem? xs k ≡ some x
take_part zero k xs x got = absurd (cc got)
take_part (suc n) k [] x got = got
take_part (suc n) zero (y ∷ xs) x got = got
take_part (suc n) (suc k) (y ∷ xs) x got = take_part n k xs x got

drop_part :
    {A : Type 0} (n k : ℕ) (xs : List A) (x : A)
    → get_elem? (drop n xs) k ≡ some x
    → get_elem? xs (n + k) ≡ some x
drop_part zero k xs x got =
    subst (λ i. get_elem? xs i ≡ some x) {x = k} {y = 0 + k} (omega arith) got
drop_part (suc n) k [] x got = absurd (cc got)
drop_part (suc n) k (y ∷ xs) x got =
    subst (λ i. get_elem? (y ∷ xs) i ≡ some x) {x = suc (n + k)} {y = suc n + k} (omega arith)
      (drop_part n k xs x got)

-- The entries between the sentinels come after the three of the head.
pub middle_part :
    (decoded : List (Bool × Bytes)) (k : ℕ) (p : Bool × Bytes)
    → get_elem? (middle decoded) k ≡ some p
    → get_elem? decoded (3 + k) ≡ some p
middle_part decoded k p got =
    take_part (length decoded - 3) (3 + k) decoded p
      (drop_part 3 k (take (length decoded - 3) decoded) p got)

pub length-middle :
    (decoded : List (Bool × Bytes)) (n : ℕ) → length decoded ≡ n + 6 → n ≡ length (middle decoded)
length-middle decoded n h =
    let t = length-take (length decoded - 3) decoded in
    let d = length-drop 3 (take (length decoded - 3) decoded) in omega arith

module _ {S : Type 0} (net : Net S) (limits : Limits) (coder : Coder) (address : Text)
    (anchor : BlockRef) where
  -- The text is what one `eth_call` has returned for the aggregate of these calls, between the
  -- sentinels of the head and those of the tail.
  pub record Received (calls : List ContractCall) (encoded : Text) : Type 0 where
    pub head : List ContractCall
    pub tail : List ContractCall
    pub at_head : sentinels address (text "head") anchor ≡ ok head
    pub at_tail : sentinels address (text "tail") anchor ≡ ok tail
    pub excluded : List Text
    pub endpoint : RpcEndpoint
    pub kind : Text
    pub before : Client S
    pub after : Client S
    pub answered :
        eth_call net limits address
          (coder.encode_aggregate3 (packed_calls (head ++ calls ++ tail)))
          anchor
          excluded
          before
        ≡ (ok (encoded, endpoint, kind), after)

  -- The result is that of the call at place `k` of the calls, in a response to these calls whose
  -- sentinels were verified: it stands at the same place after the head's three.
  pub record Entry (calls : List ContractCall) (k : ℕ) (call : ContractCall)
      (result : RawCallResult) : Type 0 where
    pub asked : get_elem? calls k ≡ some call
    pub encoded : Text
    pub received : Received calls encoded
    pub decoded : List (Bool × Bytes)
    pub verified : verified_results coder (length calls + 6) anchor encoded ≡ ok decoded
    pub entry : get_elem? decoded (3 + k) ≡ some (result.success, result.returndata)
    pub key : result.key ≡ call.key

  -- A result that succeeded in the batch is kept; for any other the call was read on its own.
  abbrev pub From : List ContractCall → ℕ → ContractCall → RawCallResult → Type 0
  From calls k call result =
      (result.success ≡ true) × Entry calls k call result ⊎ Entry (call ∷ []) 0 call result

  pub From-key :
      (calls : List ContractCall) (k : ℕ) (call : ContractCall) (result : RawCallResult)
      → From calls k call result
      → result.key ≡ call.key
  From-key calls k call result (inl (success, e)) = e.key
  From-key calls k call result (inr e) = e.key

  -- What the body of the response is: every call's entry.
  module _ (calls : List ContractCall) (encoded : Text) (received : Received calls encoded)
      (decoded : List (Bool × Bytes))
      (verified : verified_results coder (length calls + 6) anchor encoded ≡ ok decoded) where
    zip_results-from :
        (k : ℕ) (rest : List ContractCall) (xs : List (Bool × Bytes))
        → ((j : ℕ) (c : ContractCall)
            → get_elem? rest j ≡ some c
            → get_elem? calls (j + k) ≡ some c)
        → ((j : ℕ) (p : Bool × Bytes)
            → get_elem? xs j ≡ some p
            → get_elem? decoded (3 + (j + k)) ≡ some p)
        → length rest ≡ length xs
        → Each (Entry calls) k rest (zip_results rest xs)
    unfolding zip_results
    zip_results-from k [] xs here there same = tt
    zip_results-from k (call ∷ rest) [] here there same = absurd (omega arith)
    zip_results-from k (call ∷ rest) (x ∷ xs) here there same = (
      record {
        asked =
            subst (λ i. get_elem? calls i ≡ some call) {x = 0 + k} {y = k} (omega arith)
              (here 0 call refl);
        encoded = encoded;
        received = received;
        decoded = decoded;
        verified = verified;
        entry =
            subst (λ i. get_elem? decoded (3 + i) ≡ some x) {x = 0 + k} {y = k} (omega arith)
              (there 0 x refl);
        key = refl;
      },
      zip_results-from (k + 1) rest xs
          (λ j c at. subst (λ i. get_elem? calls i ≡ some c) (move j k) (here (suc j) c at))
          (λ j p at.
            subst (λ i. get_elem? decoded (3 + i) ≡ some p) (move j k) (there (suc j) p at))
          (omega arith),
    )

    pub zip_results-Each :
        length decoded ≡ length calls + 6
        → Each (Entry calls) 0 calls (zip_results calls (middle decoded))
    zip_results-Each long =
        zip_results-from 0 calls (middle decoded)
          (λ j c at. subst (λ i. get_elem? calls i ≡ some c) {x = j} {y = j + 0} (omega arith) at)
          (λ j p at.
            subst (λ i. get_elem? decoded (3 + i) ≡ some p) {x = j} {y = j + 0} (omega arith)
              (middle_part decoded j p at))
          (length-middle decoded (length calls) long)

  -- The calldata that is sent carries the calls between the sentinels.
  pub aggregate-Received :
      (extend : List ContractCall → List RawCallResult → List Text → Client S → Body S)
      (calls : List ContractCall) {calldata : Bytes} (encoded : Text)
      → aggregate net limits coder address anchor extend calls ≡ ok calldata
      → (excluded : List Text) (e : RpcEndpoint) (kind : Text) (s t : Client S)
      → eth_call net limits address calldata anchor excluded s ≡ (ok (encoded, e, kind), t)
      → Received calls encoded
  unfolding aggregate
  aggregate-Received extend calls encoded h excluded e kind s t answered =
      let (head, at_head, f1) = >>=-returns (sentinels address (text "head") anchor) _ h in
      let (tail, at_tail, f2) = >>=-returns (sentinels address (text "tail") anchor) _ f1 in
      let sent = coder.encode_aggregate3 (packed_calls (head ++ calls ++ tail)) in
      record {
        head = head;
        tail = tail;
        at_head = at_head;
        at_tail = at_tail;
        excluded = excluded;
        endpoint = e;
        kind = kind;
        before = s;
        after = t;
        answered =
            subst
              (λ raw.
                eth_call net limits address raw anchor excluded s ≡ (ok (encoded, e, kind), t))
              {y = sent} (cc f2) answered;
      }
