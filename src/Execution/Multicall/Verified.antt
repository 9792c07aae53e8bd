-- ===== src/Execution/Multicall/Verified.antt =====
-- The results of `_execute_once` of execution/multicall3.py and the responses they come from.
use mathlib.Core.Path.{subst}
use rpc_state_indexer.Prelude.{
  ℕ, zero, suc, ◌+◌, ◌-◌, ◌≡◌, refl, Bool, true, false, not, inl, inr, List, [], ◌∷◌, Result, ok,
  err, >>=-returns, raise_if, length, take, drop, if◌then◌else◌, Bool-cases, Result-cases, ◌==◌,
  arith,
}
use rpc_state_indexer.Prelude.Text.{Text}
use rpc_state_indexer.Json.{str}
use rpc_state_indexer.Execution.LegacyBatch.{normalize_hash}
use rpc_state_indexer.Domain.{BlockRef}
use rpc_state_indexer.Evm.Bytes.{Bytes}
use rpc_state_indexer.Rpc.Endpoint.{RpcEndpoint}
use rpc_state_indexer.Rpc.Client.{Net, Limits, Client}
use rpc_state_indexer.Execution.Base.{
  ContractCall, RawCallResult, VerifiedBatchResult, ExecutionFault, count_mismatch, call_keys,
  result_keys,
}
use rpc_state_indexer.Execution.Multicall.{
  Coder, verify_sentinels, verified_results, from_option, raw_bytes,
}
use rpc_state_indexer.Execution.Multicall.Execute.{Read, eth_call}
use rpc_state_indexer.Execution.Multicall.Entries.{
  Each, Each-keys, only_one, Received, Entry, From, From-key, zip_results-Each, aggregate-Received,
}
use rpc_state_indexer.Execution.Multicall.Once.{
  Once, Body, single, push, push_single, escalate, keep, complete_batch, finish, after_verified,
  after_eth_call, once_loop, run_once, aggregate, execute_plain, execute_once,
}

verified_results-length :
    (coder : Coder) (expected : ℕ) (anchor : BlockRef) (encoded : Text)
    (decoded : List (Bool × Bytes))
    → verified_results coder expected anchor encoded ≡ ok decoded
    → length decoded ≡ expected
unfolding verified_results
verified_results-length coder expected anchor encoded decoded h =
    let (raw, h₁, h₂) = >>=-returns (raw_bytes encoded) _ h in
    let (d, h₃, h₄) = >>=-returns (from_option (coder.decode_aggregate3 raw)) _ h₂ in
    let (u, h₅, h₆) = >>=-returns (raise_if (not (length d == expected)) count_mismatch) _ h₄ in
    let (v, h₇, h₈) = >>=-returns (verify_sentinels (take 3 d) anchor) _ h₆ in
    let (w, h₉, h₁₀) = >>=-returns (verify_sentinels (drop (length d - 3) d) anchor) _ h₈ in
    let same : d ≡ decoded = cc h₁₀ in
    subst (λ (xs : List (Bool × Bytes)). length xs ≡ expected) same
      (elim (Bool-cases (length d == expected)) [
        | inl e ↦ ground arith
        | inr e ↦ absurd (cc (rw e at h₅))
      ])

module _ {S : Type 0} where
  abbrev pub Good :
      (ℕ → ContractCall → RawCallResult → Type 0) → List ContractCall → Once S → Type 0
  Good P calls (ok batch, s) = Each P 0 calls batch.results
  Good P calls (err fault, s) = Unit

  abbrev BodyGood :
      (ℕ → ContractCall → RawCallResult → Type 0) → ℕ → List ContractCall → Body S → Type 0
  BodyGood P k calls (ok (results, groups), s) = Each P k calls results
  BodyGood P k calls (err fault, s) = Unit

  module _ (P : ℕ → ContractCall → RawCallResult → Type 0) (k : ℕ) (call : ContractCall)
      (calls : List ContractCall) where
    push-BodyGood :
        (r : RawCallResult) (body : Body S)
        → P k call r
        → BodyGood P (k + 1) calls body
        → BodyGood P k (call ∷ calls) (push r body)
    push-BodyGood r (ok (results, groups), s) here b = (here, b)
    push-BodyGood r (err fault, s) here b = tt

    push_single-BodyGood :
        (Q : ℕ → ContractCall → RawCallResult → Type 0) (groups : List Text) (once : Once S)
        (rest : List Text → Client S → Body S)
        → ((r : RawCallResult) → Q 0 call r → P k call r)
        → Good Q (call ∷ []) once
        → ((g : List Text) (s : Client S) → BodyGood P (k + 1) calls (rest g s))
        → BodyGood P k (call ∷ calls) (push_single (single groups once) rest)
    push_single-BodyGood Q groups (err fault, s) rest alone g later = tt
    push_single-BodyGood Q groups (ok batch, s) rest alone g later =
        let (r, e, here) = only_one Q call batch.results g in
        rw (single, e) (push-BodyGood r _ (alone r here) (later _ s))

  either-BodyGood :
      (P : ℕ → ContractCall → RawCallResult → Type 0) (k : ℕ) (calls : List ContractCall) (b : Bool)
      (x y : Body S)
      → (b ≡ true → BodyGood P k calls x)
      → BodyGood P k calls y
      → BodyGood P k calls (if b then x else y)
  either-BodyGood P k calls true x y p q = p refl
  either-BodyGood P k calls false x y p q = q

module _ {S : Type 0} (net : Net S) (limits : Limits) (coder : Coder) (address : Text)
    (anchor : BlockRef) where
  module _ (all : List ContractCall) (again : ContractCall → Client S → Once S)
      (each : (call : ContractCall) (s : Client S)
        → Good (Entry net limits coder address anchor (call ∷ [])) (call ∷ []) (again call s)) where
    escalate-BodyGood :
        (k : ℕ) (calls : List ContractCall) (body : List RawCallResult) (groups : List Text)
        (s : Client S)
        → Each (Entry net limits coder address anchor all) k calls body
        → BodyGood
            (From net limits coder address anchor all)
            k
            calls
            (escalate again calls body groups s)
    unfolding escalate
    escalate-BodyGood k [] [] groups s b = tt
    escalate-BodyGood k [] (r ∷ body) groups s b = absurd b
    escalate-BodyGood k (call ∷ calls) [] groups s b = absurd b
    escalate-BodyGood k (call ∷ calls) (r ∷ body) groups s (here, b) =
        let P = From net limits coder address anchor all in
        either-BodyGood P k (call ∷ calls) r.success _ _
          (λ success.
            push-BodyGood P k call calls r _ (inl (success, here))
              (escalate-BodyGood (k + 1) calls body groups s b))
          (push_single-BodyGood P k call calls (Entry net limits coder address anchor (call ∷ []))
            groups (again call s) _ (λ r' alone. inr alone) (each call s)
            (λ g s'. escalate-BodyGood (k + 1) calls body g s' b))

  module _ (extend : List ContractCall → List RawCallResult → List Text → Client S → Body S)
      (calls : List ContractCall) (P : ℕ → ContractCall → RawCallResult → Type 0)
      (extends : (body : List RawCallResult) (groups : List Text) (s : Client S)
        → Each (Entry net limits coder address anchor calls) 0 calls body
        → BodyGood P 0 calls (extend calls body groups s)) where
    finish-Good :
        (kind : Text) (body : Body S)
        → BodyGood P 0 calls body
        → Good P calls (finish net limits coder address anchor extend calls kind body)
    unfolding complete_batch
    finish-Good kind (err fault, s) b = tt
    finish-Good kind (ok (results, groups), s) b =
        elim (Result-cases (normalize_hash (str anchor.block_hash))) [
          | inl (h, e) ↦ rw (complete_batch, e) b
          | inr (f, e) ↦ rw (complete_batch, e) tt
        ]

    after_verified-Good :
        (retry : List Text → Client S → Once S) (attempt : ℕ) (excluded : List Text)
        (e : RpcEndpoint) (kind : Text) (encoded : Text)
        (answer : Result ExecutionFault (List (Bool × Bytes))) (s : Client S)
        → Received net limits coder address anchor calls encoded
        → verified_results coder (length calls + 6) anchor encoded ≡ answer
        → ((x : List Text) (t : Client S) → Good P calls (retry x t))
        → Good P calls (
            after_verified net limits coder address anchor extend calls retry attempt excluded e
              kind answer s)
    unfolding after_verified
    after_verified-Good retry attempt excluded e kind encoded (err fault) s received v later =
        later _ _
    after_verified-Good retry attempt excluded e kind encoded (ok decoded) s received v later =
        finish-Good kind _ (
          extends _ _ s (
            zip_results-Each net limits coder address anchor calls encoded received decoded v
              (verified_results-length coder (length calls + 6) anchor encoded decoded v)))

    after_eth_call-Good :
        (retry : List Text → Client S → Once S) (attempt : ℕ) (excluded : List Text)
        (answer : Result ExecutionFault Read × Client S)
        → ((encoded : Text) (e : RpcEndpoint) (kind : Text) (t : Client S)
            → answer ≡ (ok (encoded, e, kind), t)
            → Received net limits coder address anchor calls encoded)
        → ((x : List Text) (t : Client S) → Good P calls (retry x t))
        → Good P calls (
            after_eth_call net limits coder address anchor extend calls retry attempt excluded
              answer)
    unfolding after_eth_call
    after_eth_call-Good retry attempt excluded (err fault, s) received later = tt
    after_eth_call-Good retry attempt excluded (ok (encoded, e, kind), s) received later =
        after_verified-Good retry attempt excluded e kind encoded _ s
          (received encoded e kind s refl) refl later

    once_loop-Good :
        (calldata : Bytes) (left attempt : ℕ) (excluded : List Text) (s : Client S)
        → aggregate net limits coder address anchor extend calls ≡ ok calldata
        → Good P calls (
            once_loop net limits coder address anchor extend calls calldata left attempt excluded s)
    unfolding once_loop
    once_loop-Good calldata zero attempt excluded s sent = tt
    once_loop-Good calldata (suc left) attempt excluded s sent =
        after_eth_call-Good _ attempt excluded
          (eth_call net limits address calldata anchor excluded s)
          (λ encoded e kind t h.
            aggregate-Received net limits coder address anchor extend calls encoded sent excluded e
              kind s t h)
          (λ x t. once_loop-Good calldata left (attempt + 1) x t sent)

    run_once-Good :
        (calldata : Result ExecutionFault Bytes) (s : Client S)
        → aggregate net limits coder address anchor extend calls ≡ calldata
        → Good P calls (run_once net limits coder address anchor extend calls calldata s)
    unfolding run_once
    run_once-Good (err fault) s sent = tt
    run_once-Good (ok calldata) s sent = once_loop-Good calldata limits.max_retries 0 [] s sent

  execute_plain-Good :
      (calls : List ContractCall) (s : Client S)
      → Good
          (Entry net limits coder address anchor calls)
          calls
          (execute_plain net limits coder address anchor calls s)
  unfolding execute_plain
  execute_plain-Good calls s =
      run_once-Good keep calls (Entry net limits coder address anchor calls)
        (λ body groups t each. each) _ s refl

  -- Whatever `_execute_once` returns, each call has one result, under its key and at its place. A
  -- result that succeeded in the batch is the entry at the call's place, after the three sentinels
  -- of the head, of a response that an `eth_call` returned for these calls between their sentinels.
  -- Any other call was read again on its own, and its result is the entry of such a response to that
  -- call alone. Each response has six entries more than calls, and its three entries at both ends
  -- were verified at the anchor block.
  pub execute_once-Each :
      (calls : List ContractCall) (s : Client S) (batch : VerifiedBatchResult) (t : Client S)
      → execute_once net limits coder address anchor calls s ≡ (ok batch, t)
      → Each (From net limits coder address anchor calls) 0 calls batch.results
        × (result_keys batch.results ≡ call_keys calls)
  unfolding execute_once
  execute_once-Each calls s batch t h =
      let P = From net limits coder address anchor calls in
      let alone =
        λ (call : ContractCall). execute_plain net limits coder address anchor (call ∷ []) in
      let g : Good P calls (execute_once net limits coder address anchor calls s) =
        run_once-Good (escalate alone) calls P
          (λ body groups s' each.
            escalate-BodyGood calls alone (λ call s''. execute_plain-Good (call ∷ []) s'') 0 calls
              body groups s' each)
          _ s refl in
      let each = subst (Good P calls) h g in
      (
        each,
        Each-keys P (From-key net limits coder address anchor calls) 0 calls batch.results each,
      )
