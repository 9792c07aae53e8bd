-- ===== src/Execution/Adaptive.antt =====
-- `_execute_adaptive` of execution/multicall3.py: a batch that is too large for the provider is halved. The
-- parameter `once` is `_execute_once`; the fuel bounds the depth of the halving.
use mathlib.Core.Path.{subst}
use mathlib.Core.List.{append-nil, append_assoc}
use rpc_state_indexer.Prelude.{
  ℕ, zero, suc, ◌/◌, ◌≤◌, ◌<◌, ◌≡◌, ◌≢◌, refl, sym, ap, ◌∙◌, Bool, true, false, not, ◌&&◌, inl, inr,
  List, [], ◌∷◌, ◌++◌, Result, ok, err, length, take, drop, length-take, length-drop,
  take-append-drop, ◌==◌, if◌then◌else◌, arith, Bool-cases,
}
use rpc_state_indexer.Prelude.Text.{Text}
use rpc_state_indexer.Execution.Base.{
  ContractCall, VerifiedBatchResult, ExecutionFault, provider_limit_reached, call_keys, result_keys,
}

-- What is raised, and what stands for a recursion that has run out of the model's fuel.
pub data AdaptiveFault : Type 0 where
  raised : ExecutionFault → AdaptiveFault
  out_of_fuel : AdaptiveFault

abbrev pub Batches : Type 0 → Type 0
Batches S = Result AdaptiveFault (List VerifiedBatchResult) × S

-- `except RpcProviderLimit`.
abbrev pub is_provider_limit : ExecutionFault → Bool
is_provider_limit provider_limit_reached = true
is_provider_limit fault = false

module _ {S : Type 0} where
  -- `await first + await second`.
  abbrev pub joined : List VerifiedBatchResult → Batches S → Batches S
  joined front (ok back, s) = (ok (front ++ back), s)
  joined front (err fault, s) = (err fault, s)

  abbrev pub then_join : Batches S → (S → Batches S) → Batches S
  then_join (ok front, s) rest = joined front (rest s)
  then_join (err fault, s) rest = (err fault, s)

  abbrev pub after_once :
      ℕ → Result ExecutionFault VerifiedBatchResult × S → (S → Batches S) → Batches S
  after_once size (ok batch, s) halves = (ok (batch ∷ []), s)
  after_once size (err fault, s) halves =
      if is_provider_limit fault && not (size == 1) then halves s else (err (raised fault), s)

  unfoldable pub execute_adaptive :
      (List ContractCall → S → Result ExecutionFault VerifiedBatchResult × S)
      → ℕ
      → List ContractCall
      → S
      → Batches S
  execute_adaptive once zero calls s = (err out_of_fuel, s)
  execute_adaptive once (suc fuel) calls s =
      let midpoint = length calls / 2 in
      after_once (length calls) (once calls s) (λ s'.
        then_join (execute_adaptive once fuel (take midpoint calls) s')
          (λ s''. execute_adaptive once fuel (drop midpoint calls) s''))

abbrev pub batch_keys : List VerifiedBatchResult → List Text
batch_keys [] = []
batch_keys (b ∷ bs) = result_keys b.results ++ batch_keys bs

-- Results for exactly these calls in their order, or an error that the fuel has no part in.
abbrev pub Complete : {S : Type 0} → List ContractCall → Batches S → Type 0
Complete calls (ok batches, s) = batch_keys batches ≡ call_keys calls
Complete calls (err fault, s) = fault ≢ out_of_fuel

-- What one attempt at a batch promises.
abbrev pub Attempts :
    {S : Type 0} → List ContractCall → Result ExecutionFault VerifiedBatchResult × S → Type 0
Attempts calls (ok batch, s) = result_keys batch.results ≡ call_keys calls
Attempts calls (err fault, s) = Unit

batch_keys-append :
    (as' bs : List VerifiedBatchResult) → batch_keys (as' ++ bs) ≡ batch_keys as' ++ batch_keys bs
batch_keys-append [] bs = refl
batch_keys-append (a ∷ as') bs =
    ap (λ (ks : List Text). result_keys a.results ++ ks) (batch_keys-append as' bs)
    ∙ sym (append_assoc (result_keys a.results) (batch_keys as') (batch_keys bs))

call_keys-append :
    (as' bs : List ContractCall) → call_keys (as' ++ bs) ≡ call_keys as' ++ call_keys bs
call_keys-append [] bs = refl
call_keys-append (a ∷ as') bs = ap (λ (ks : List Text). a.key ∷ ks) (call_keys-append as' bs)

joined-Complete :
    {S : Type 0} (front back : List ContractCall) (batches : List VerifiedBatchResult)
    (r : Batches S)
    → batch_keys batches ≡ call_keys front
    → Complete back r
    → Complete (front ++ back) (joined batches r)
joined-Complete front back batches (ok more, s) p q =
    rw (batch_keys-append, call_keys-append, p, q) refl
joined-Complete front back batches (err fault, s) p q = q

pub then_join-Complete :
    {S : Type 0} (front back : List ContractCall) (r : Batches S) (rest : S → Batches S)
    → Complete front r
    → ((s : S) → Complete back (rest s))
    → Complete (front ++ back) (then_join r rest)
then_join-Complete front back (ok batches, s) rest p q =
    joined-Complete front back batches (rest s) p (q s)
then_join-Complete front back (err fault, s) rest p q = p

after_once-Complete :
    {S : Type 0} (calls : List ContractCall) (r : Result ExecutionFault VerifiedBatchResult × S)
    (halves : S → Batches S)
    → Attempts calls r
    → ((s : S) → (length calls == 1) ≡ false → Complete calls (halves s))
    → Complete calls (after_once (length calls) r halves)
after_once-Complete calls (ok batch, s) halves p q = append-nil _ ∙ p
after_once-Complete calls (err fault, s) halves p q = elim (Bool-cases (is_provider_limit fault)) [
  | inr e ↦ rw (after_once, e) (λ h. cc)
  | inl e ↦ elim (Bool-cases (length calls == 1)) [
    | inl one ↦ rw (after_once, e, one) (λ h. cc)
    | inr more ↦ rw (after_once, e, more) (q s more)
  ]
]

-- Halving a batch ends, and loses, adds and reorders nothing: where every attempt at a batch
-- returns the results of its calls or raises, so does `_execute_adaptive` of a batch that is not
-- empty, with the results of all its calls in order. Fuel for the number of calls is enough.
pub execute_adaptive-Complete :
    {S : Type 0} (once : List ContractCall → S → Result ExecutionFault VerifiedBatchResult × S)
    → ((calls : List ContractCall) (s : S) → Attempts calls (once calls s))
    → (fuel : ℕ) (calls : List ContractCall) (s : S) → 0 < length calls
    → length calls ≤ fuel
    → Complete calls (execute_adaptive once fuel calls s)
unfolding execute_adaptive
execute_adaptive-Complete once attempts zero calls s some_calls enough = absurd (omega arith)
execute_adaptive-Complete once attempts (suc fuel) calls s some_calls enough =
    after_once-Complete calls (once calls s) _ (attempts calls s) (λ s' more.
      let middle = length calls / 2 in
      let t = length-take middle calls in
      let d = length-drop middle calls in
      let several : 2 ≤ length calls = ground arith in
      let low =
        execute_adaptive-Complete once attempts fuel (take middle calls) s' (omega arith)
          (omega arith) in
      subst
        (λ (cs : List ContractCall). Complete cs (
          then_join (execute_adaptive once fuel (take middle calls) s')
            (λ s''. execute_adaptive once fuel (drop middle calls) s'')))
        (take-append-drop middle calls)
        (then_join-Complete (take middle calls) (drop middle calls) _ _ low (λ s''.
          execute_adaptive-Complete once attempts fuel (drop middle calls) s'' (omega arith)
            (omega arith))))
