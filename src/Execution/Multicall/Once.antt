-- ===== src/Execution/Multicall/Once.antt =====
-- `_execute_once` of execution/multicall3.py: a batch between two sentinels, read again elsewhere
-- until both ends are verified, and each call that failed read once more on its own.
use rpc_state_indexer.Prelude.{
  ℕ, zero, suc, ◌+◌, ◌*◌, ◌^◌, Bool, true, false, ◌&&◌, ◌||◌, none, List, [], ◌∷◌, ◌++◌, ◌>>=◌,
  Result, ok, err, length, min, ltb, ◌==◌, if◌then◌else◌,
}
use rpc_state_indexer.Prelude.Text.{Text, text, text_eq}
use rpc_state_indexer.Json.{str}
use rpc_state_indexer.Domain.{BlockRef, multicall3}
use rpc_state_indexer.Evm.Bytes.{Bytes}
use rpc_state_indexer.Rpc.Classification.{transient_failure}
use rpc_state_indexer.Rpc.Endpoint.{RpcEndpoint, second}
use rpc_state_indexer.Rpc.Client.{Net, Limits, Client}
use rpc_state_indexer.Rpc.Client.Call.{note_failure, pause}
use rpc_state_indexer.Execution.Base.{
  ContractCall, RawCallResult, VerifiedBatchResult, ExecutionFault, count_mismatch, unverified,
}
use rpc_state_indexer.Execution.LegacyBatch.{normalize_hash}
use rpc_state_indexer.Execution.Multicall.{
  Coder, sentinels, packed_calls, verified_results, zip_results, middle,
}
use rpc_state_indexer.Execution.Multicall.Execute.{Read, eth_call}

-- Insertion into the sorted provider groups, each of which stands there once.
abbrev pub text_ltb : Text → Text → Bool
text_ltb s [] = false
text_ltb [] (d ∷ t) = true
text_ltb (c ∷ s) (d ∷ t) = ltb c d || (c == d && text_ltb s t)

abbrev pub insert_group : Text → List Text → List Text
insert_group g [] = g ∷ []
insert_group g (h ∷ hs) =
    let rest = insert_group g hs in
    if text_ltb g h then g ∷ h ∷ hs else if text_eq g h then h ∷ hs else h ∷ rest

abbrev pub insert_groups : List Text → List Text → List Text
insert_groups [] groups = groups
insert_groups (g ∷ gs) groups = insert_groups gs (insert_group g groups)

-- The batch as it is returned; the anchor's hash is checked here too.
unfoldable pub complete_batch :
    Coder
    → BlockRef
    → Text
    → List Text
    → List RawCallResult
    → Result ExecutionFault VerifiedBatchResult
unfolding normalize_hash
complete_batch coder anchor kind groups body = elim (normalize_hash (str anchor.block_hash)) [
  | err fault ↦ err fault
  | ok anchor_hash ↦ ok (record {
    results = body;
    evidence = record {
      executor_kind = multicall3;
      block_reference_kind = kind;
      anchor_hash = anchor_hash;
      provider_groups = groups;
      result_digest = coder.digest_raw_results body;
      verified = true;
    };
  })
]

abbrev pub Once : Type 0 → Type 0
Once S = Result ExecutionFault VerifiedBatchResult × Client S

-- The results and groups so far.
abbrev pub Body : Type 0 → Type 0
Body S = Result ExecutionFault (List RawCallResult × List Text) × Client S

-- The one result of a list.
abbrev pub only : List RawCallResult → Result ExecutionFault RawCallResult
only (r ∷ []) = ok r
only results = err count_mismatch

module _ {S : Type 0} where
  -- `retry.results`, which must be one result.
  abbrev pub single :
      List Text → Once S → Result ExecutionFault (RawCallResult × List Text) × Client S
  single groups (err fault, s) = (err fault, s)
  single groups (ok batch, s) = elim (only batch.results) [
    | err fault ↦ (err fault, s)
    | ok r ↦ (ok (r, insert_groups batch.evidence.provider_groups groups), s)
  ]

  abbrev pub push : RawCallResult → Body S → Body S
  push r (ok (rs, groups), s) = (ok (r ∷ rs, groups), s)
  push r (err fault, s) = (err fault, s)

  abbrev pub push_single :
      Result ExecutionFault (RawCallResult × List Text) × Client S
      → (List Text → Client S → Body S)
      → Body S
  push_single (err fault, s) rest = (err fault, s)
  push_single (ok (r, groups), s) rest = push r (rest groups s)

  -- The loop over the results that failed; `again` reads one call on its own.
  unfoldable pub escalate :
      (ContractCall → Client S → Once S)
      → List ContractCall
      → List RawCallResult
      → List Text
      → Client S
      → Body S
  escalate again [] body groups s = (ok ([], groups), s)
  escalate again (call ∷ calls) [] groups s = (ok ([], groups), s)
  escalate again (call ∷ calls) (r ∷ body) groups s =
      if r.success
      then push r (escalate again calls body groups s)
      else push_single (single groups (again call s))
          (λ groups' s'. escalate again calls body groups' s')

  -- The results as they are, for `escalate_failed_subcalls=False`.
  abbrev pub keep : List ContractCall → List RawCallResult → List Text → Client S → Body S
  keep calls body groups s = (ok (body, groups), s)

module _ {S : Type 0} (net : Net S) (limits : Limits) (coder : Coder) (address : Text)
    (anchor : BlockRef) where
  module _ (extend : List ContractCall → List RawCallResult → List Text → Client S → Body S)
      (calls : List ContractCall) where
    abbrev pub finish : Text → Body S → Once S
    finish kind (err fault, s) = (err fault, s)
    finish kind (ok (body, groups), s) = (complete_batch coder anchor kind groups body, s)

    -- The `except` clause: the endpoint is left for another one.
    abbrev pub leave : ℕ → RpcEndpoint → Client S → Client S
    leave attempt e s =
        pause net (min (2 * second) (limits.retry_base * 2 ^ attempt))
          (note_failure net (transient_failure none) none e s)

    unfoldable pub after_verified :
        (List Text → Client S → Once S)
        → ℕ
        → List Text
        → RpcEndpoint
        → Text
        → Result ExecutionFault (List (Bool × Bytes))
        → Client S
        → Once S
    unfolding zip_results complete_batch note_failure
    after_verified retry attempt excluded e kind (err fault) s =
        retry (e.name ∷ excluded) (leave attempt e s)
    after_verified retry attempt excluded e kind (ok decoded) s =
        finish kind (extend calls (zip_results calls (middle decoded)) (e.provider_group ∷ []) s)

    unfoldable pub after_eth_call :
        (List Text → Client S → Once S)
        → ℕ
        → List Text
        → Result ExecutionFault Read × Client S
        → Once S
    unfolding after_verified verified_results
    after_eth_call retry attempt excluded (err fault, s) = (err fault, s)
    after_eth_call retry attempt excluded (ok (encoded, e, kind), s) =
        after_verified retry attempt excluded e kind
          (verified_results coder (length calls + 6) anchor encoded) s

    unfoldable pub once_loop : Bytes → ℕ → ℕ → List Text → Client S → Once S
    unfolding after_eth_call eth_call
    once_loop calldata zero attempt excluded s = (err unverified, s)
    once_loop calldata (suc left) attempt excluded s =
        after_eth_call (λ excluded' s'. once_loop calldata left (attempt + 1) excluded' s') attempt
          excluded (eth_call net limits address calldata anchor excluded s)

    -- The calldata of the calls between the two sentinels.
    unfoldable pub aggregate : Result ExecutionFault Bytes
    unfolding sentinels
    aggregate = do
      head ← sentinels address (text "head") anchor
      tail ← sentinels address (text "tail") anchor
      ok (coder.encode_aggregate3 (packed_calls (head ++ calls ++ tail)))

    unfoldable pub run_once : Result ExecutionFault Bytes → Client S → Once S
    unfolding once_loop
    run_once (err fault) s = (err fault, s)
    run_once (ok calldata) s = once_loop calldata limits.max_retries 0 [] s

  -- `_execute_once(calls, anchor, escalate_failed_subcalls=False)`.
  unfoldable pub execute_plain : List ContractCall → Client S → Once S
  unfolding run_once aggregate
  execute_plain calls s = run_once keep calls (aggregate keep calls) s

  -- `_execute_once(calls, anchor)`.
  unfoldable pub execute_once : List ContractCall → Client S → Once S
  unfolding run_once escalate execute_plain aggregate
  execute_once calls s =
      let extend = escalate (λ call. execute_plain (call ∷ [])) in
      run_once extend calls (aggregate extend calls) s
