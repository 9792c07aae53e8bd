-- ===== src/Collectors/Outcomes.antt =====
-- What the loop of `PoolReserveCollector.collect` of collectors/pools.py makes of each asset.
use mathlib.Core.Path.{subst}
use mathlib.Core.List.{append_cancel_left}
use rpc_state_indexer.Prelude.{
  ℕ, ◌≡◌, refl, sym, ◌∙◌, ap, true, false, Option, none, some, List, [], ◌∷◌, ◌++◌, Result, ok,
  length, map, ◌==◌, inl, inr, arith, Bool-cases, >>=-returns, All, if◌then◌else◌,
}
use rpc_state_indexer.Prelude.Int.{pos}
use rpc_state_indexer.Prelude.Text.{Text, text, text_eq, text_eq_iff}
use rpc_state_indexer.Domain.{BlockRef, PoolBalanceRow, is_ok}
use rpc_state_indexer.Evm.Bytes.{Bytes, from_bytes}
use rpc_state_indexer.Evm.Decoding.{decode_uint256}
use rpc_state_indexer.Rpc.Classification.{
  FailureKind, transient, rate_limit, archive_unavailable, provider_limit, execution_revert,
  permanent,
}
use rpc_state_indexer.Evm.Calldata.{balance_of_calldata}
use rpc_state_indexer.Execution.Base.{RawCallResult, VerifiedBatchResult}
use rpc_state_indexer.Census.Base.{CollectionError}
use rpc_state_indexer.Collectors.Common.{
  UIntCallSpec, DecodedUIntCall, Calls, CollectorFault, failed_status, failed_observation,
  decode_raw, observed, as_error, find_spec, find_call,
}
use rpc_state_indexer.Collectors.Observed.{Origin, Traced, find_call-Traced}
use rpc_state_indexer.Collectors.Reserves.{
  Rows, or_unknown, balance_row, with_balance, with_error, gather, reserve_key, or_word,
  reserve_specs, reserve_spec,
}

abbrev pub token_of : PoolBalanceRow → Text
token_of row = row.token_address

-- A word that the contract has returned.
abbrev pub IsWord : RawCallResult → Type 0
IsWord raw = (raw.success ≡ true) × (length raw.returndata ≡ 32)

failed_status-fails : (kind : FailureKind) → is_ok (failed_status kind) ≡ false
unfolding is_ok
failed_status-fails transient = refl
failed_status-fails rate_limit = refl
failed_status-fails archive_unavailable = refl
failed_status-fails provider_limit = refl
failed_status-fails execution_revert = refl
failed_status-fails permanent = refl

module _ (casefold : Text → Text) (spec : UIntCallSpec) (raw : RawCallResult) (n : ℕ) where
  failed_observation-fails : is_ok (failed_observation casefold raw).status ≡ false
  unfolding failed_observation
  failed_observation-fails = failed_status-fails _

  -- A word is observed as its number, and all else is an error.
  observed-IsWord :
      observed (decode_raw casefold spec raw n) ≡ true
      → IsWord raw
        × ((decode_raw casefold spec raw n).observation.value
            ≡ some (pos (from_bytes raw.returndata)))
  unfolding decode_raw decode_uint256 is_ok
  observed-IsWord h = elim (Bool-cases raw.success) [
    | inl e ↦ elim (Bool-cases (length raw.returndata == 0)) [
      | inl z ↦ absurd (cc (rw (e, z) at h))
      | inr z ↦ elim (Bool-cases (length raw.returndata == 32)) [
        | inl w ↦ ((e, ground (arith, w)), rw (e, z, w) refl)
        | inr w ↦ absurd (cc (rw (e, z, w) at h))
      ]
    ]
    | inr e ↦ absurd (cc (h, e, failed_observation-fails))
  ]

  unobserved : observed (decode_raw casefold spec raw n) ≡ false → ¬ IsWord raw
  unfolding decode_raw decode_uint256 is_ok
  unobserved h (e, w) = absurd (cc (rw (e, w) at h))

reserve_key-injective : (pool : Text) {a b : Text} → reserve_key pool a ≡ reserve_key pool b → a ≡ b
unfolding reserve_key
reserve_key-injective pool {a} {b} e =
    append_cancel_left (text "reserve/" ++ pool ++ text "/") a b e

found_call :
    (key : Text) (found : Option DecodedUIntCall) {call : DecodedUIntCall}
    → or_unknown key found ≡ ok call
    → found ≡ some call
found_call key none h = absurd (cc h)
found_call key (some call) h = ground (arith)

as_error-names :
    (call : DecodedUIntCall) {error : CollectionError}
    → as_error call ≡ ok error
    → (error.subject_address ≡ call.spec.subject_address)
      × (error.batch_sequence ≡ call.batch_sequence)
unfolding as_error
as_error-names call {error} h = elim (Bool-cases (observed call)) [
  | inl e ↦ absurd (cc (rw (e) at h))
  | inr e ↦ ground (arith, rw (e) at h)
]

module _ (pool : Text) where
  -- The key names the subject.
  pub record Keyed (spec : UIntCallSpec) : Type 0 where
    pub key : spec.call.key ≡ reserve_key pool spec.subject_address

  reserve_specs_cons :
      (token : Text) (tokens : List Text) {specs : List UIntCallSpec}
      → reserve_specs pool (token ∷ tokens) ≡ ok specs
      → (calldata : Bytes) × (rest : List UIntCallSpec) × (specs
          ≡ reserve_spec pool token calldata ∷ rest)
        × (reserve_specs pool tokens ≡ ok rest)
  unfolding reserve_specs
  reserve_specs_cons token tokens e =
      let (calldata, e1, f1) = >>=-returns (or_word (balance_of_calldata pool)) _ e in
      let (rest, e2, f2) = >>=-returns (reserve_specs pool tokens) _ f1 in
      (calldata, rest, cc f2, e2)

  pub reserve_specs-Keyed :
      (tokens : List Text) {specs : List UIntCallSpec}
      → reserve_specs pool tokens ≡ ok specs
      → All Keyed specs
  unfolding reserve_specs reserve_spec
  reserve_specs-Keyed [] {specs} e = subst (All Keyed) {x = []} {y = specs} (cc e) tt
  reserve_specs-Keyed (token ∷ tokens) {specs} e =
      let (calldata, rest, is, e') = reserve_specs_cons token tokens e in
      subst (All Keyed) {x = reserve_spec pool token calldata ∷ rest} {y = specs} (sym is)
        (record { key = refl }, reserve_specs-Keyed tokens e')

  -- The spec that a key finds has that key, and so its subject.
  find_spec-subject :
      (token : Text) (specs : List UIntCallSpec) {spec : UIntCallSpec}
      → All Keyed specs
      → find_spec (reserve_key pool token) specs ≡ some spec
      → spec.subject_address ≡ token
  unfolding find_spec
  find_spec-subject token [] keyed h = absurd (cc h)
  find_spec-subject token (first ∷ specs) {spec} (here, later) h =
      let key = reserve_key pool token in
      elim (Bool-cases (text_eq first.call.key key)) [
        | inl e ↦
            let is : first ≡ spec = cc (rw (e) at h) in
            let named = (text_eq_iff first.call.key key).0 e in
            ap (λ (s : UIntCallSpec). s.subject_address) (sym is)
            ∙ reserve_key-injective pool (sym here.key ∙ named)
        | inr e ↦ find_spec-subject token specs later (rw (e) at h)
      ]

  module _ (sha256 : Bytes → Text) (anchor : BlockRef) (all : List VerifiedBatchResult) where
    -- For each asset in turn either a balance or an error. The balance is the number of the word
    -- that the contract returned in a trusted batch; the error stands for a result of a trusted
    -- batch that is no word.
    pub data Outcomes : List Text → List PoolBalanceRow → List CollectionError → Type 0 where
      nothing : Outcomes [] [] []
      read :
          {tokens : List Text} {balances : List PoolBalanceRow} {errors : List CollectionError}
          (token : Text) (n : ℕ) (raw : RawCallResult)
          → Origin sha256 anchor all (reserve_key pool token) n raw
          → IsWord raw
          → Outcomes tokens balances errors
          → Outcomes
              (token ∷ tokens)
              (record {
                pool_address = pool;
                token_address = token;
                balance_raw = from_bytes raw.returndata;
                batch_sequence = n;
              }
                ∷ balances)
              errors
      failed :
          {tokens : List Text} {balances : List PoolBalanceRow} {errors : List CollectionError}
          (token : Text) (error : CollectionError) (raw : RawCallResult)
          → Origin sha256 anchor all (reserve_key pool token) error.batch_sequence raw
          → ¬ IsWord raw
          → error.subject_address ≡ token
          → Outcomes tokens balances errors
          → Outcomes (token ∷ tokens) balances (error ∷ errors)

    -- Without errors there is a balance of every asset.
    pub Outcomes-tokens :
        {tokens : List Text} {balances : List PoolBalanceRow}
        → Outcomes tokens balances []
        → map token_of balances ≡ tokens
    Outcomes-tokens nothing = refl
    Outcomes-tokens (read token n raw origin word later) =
        ap (λ (ts : List Text). token ∷ ts) (Outcomes-tokens later)

    module _ (casefold : Text → Text) (specs : List UIntCallSpec) (keyed : All Keyed specs) where
      -- One asset, by what its call shows.
      with_balance-Outcomes :
          (token : Text) (tokens : List Text) (call : DecodedUIntCall)
          (later : Result CollectorFault Rows) {rows : Rows}
          → Traced sha256 anchor casefold specs all (reserve_key pool token, call)
          → observed call ≡ true
          → ((more : Rows) → later ≡ ok more → Outcomes tokens more.0 more.1)
          → with_balance pool token call later ≡ ok rows
          → Outcomes (token ∷ tokens) rows.0 rows.1
      unfolding decode_raw
      with_balance-Outcomes token tokens call later {rows} traced seen outcomes e =
          let n = call.batch_sequence in
          let (word, value) =
            observed-IsWord casefold traced.spec traced.raw n
              (subst (λ (c : DecodedUIntCall). observed c ≡ true) traced.decoded seen) in
          let shown : call.observation.value ≡ some (pos (from_bytes traced.raw.returndata)) =
            ap (λ (c : DecodedUIntCall). c.observation.value) traced.decoded ∙ value in
          let (row, e1, f1) =
            >>=-returns (balance_row pool token call call.observation.value) _ e in
          let ((balances, errors), e2, f2) = >>=-returns later _ f1 in
          subst (λ (r : Rows). Outcomes (token ∷ tokens) r.0 r.1)
            {x = (
              record {
                pool_address = pool;
                token_address = token;
                balance_raw = from_bytes traced.raw.returndata;
                batch_sequence = n;
              }
                  ∷ balances,
              errors,
            )}
            {y = rows} (cc (rw (shown) at e1, f2))
            (read token n traced.raw traced.origin word (outcomes (balances, errors) e2))

      with_error-Outcomes :
          (token : Text) (tokens : List Text) (call : DecodedUIntCall)
          (later : Result CollectorFault Rows) {rows : Rows}
          → Traced sha256 anchor casefold specs all (reserve_key pool token, call)
          → observed call ≡ false
          → ((more : Rows) → later ≡ ok more → Outcomes tokens more.0 more.1)
          → with_error call later ≡ ok rows
          → Outcomes (token ∷ tokens) rows.0 rows.1
      unfolding decode_raw
      with_error-Outcomes token tokens call later {rows} traced seen outcomes e =
          let n = call.batch_sequence in
          let (error, e1, f1) = >>=-returns (as_error call) _ e in
          let ((balances, errors), e2, f2) = >>=-returns later _ f1 in
          let (subject, sequence) = as_error-names call e1 in
          let of_spec : call.spec ≡ traced.spec =
            ap (λ (c : DecodedUIntCall). c.spec) traced.decoded in
          subst (λ (r : Rows). Outcomes (token ∷ tokens) r.0 r.1) {x = (balances, error ∷ errors)}
            {y = rows} (cc f2)
            (failed token error traced.raw
              (subst (λ (k : ℕ). Origin sha256 anchor all (reserve_key pool token) k traced.raw)
                (sym sequence) traced.origin)
              (unobserved casefold traced.spec traced.raw n
                (subst (λ (c : DecodedUIntCall). observed c ≡ false) traced.decoded seen))
              (subject
                ∙ ap (λ (s : UIntCallSpec). s.subject_address) of_spec
                ∙ find_spec-subject token specs keyed traced.expected)
              (outcomes (balances, errors) e2))

      either-Outcomes :
          (token : Text) (tokens : List Text) (call : DecodedUIntCall)
          (later : Result CollectorFault Rows) {rows : Rows}
          → Traced sha256 anchor casefold specs all (reserve_key pool token, call)
          → ((more : Rows) → later ≡ ok more → Outcomes tokens more.0 more.1)
          → (if observed call then with_balance pool token call later else with_error call later)
            ≡ ok rows
          → Outcomes (token ∷ tokens) rows.0 rows.1
      either-Outcomes token tokens call later traced outcomes e =
          elim (Bool-cases (observed call)) [
            | inl seen ↦
                with_balance-Outcomes token tokens call later traced seen outcomes (rw (seen) at e)
            | inr unseen ↦
                with_error-Outcomes token tokens call later traced unseen outcomes
                  (rw (unseen) at e)
          ]

      -- The whole loop.
      pub gather-Outcomes :
          (calls : Calls) (tokens : List Text) (rest : List UIntCallSpec) {rows : Rows}
          → All (Traced sha256 anchor casefold specs all) calls
          → reserve_specs pool tokens ≡ ok rest
          → gather pool calls tokens rest ≡ ok rows
          → Outcomes tokens rows.0 rows.1
      unfolding gather reserve_spec reserve_specs
      gather-Outcomes calls [] rest {rows} traced made e =
          let e' =
            subst (λ (ss : List UIntCallSpec). gather pool calls [] ss ≡ ok rows) {x = rest}
              {y = []} (cc made) e in
          subst (λ (r : Rows). Outcomes [] r.0 r.1) {x = ([], [])} {y = rows} (cc e') nothing
      gather-Outcomes calls (token ∷ tokens) rest {rows} traced made e =
          let (calldata, specs', is, made') = reserve_specs_cons token tokens made in
          let key = reserve_key pool token in
          let e' =
            subst (λ (ss : List UIntCallSpec). gather pool calls (token ∷ tokens) ss ≡ ok rows) is
              e in
          let (call, e1, f1) = >>=-returns (or_unknown key (find_call key calls)) _ e' in
          let here =
            find_call-Traced sha256 anchor casefold specs all key calls traced
              (found_call key (find_call key calls) e1) in
          either-Outcomes token tokens call (gather pool calls tokens specs') here
            (λ more h. gather-Outcomes calls tokens specs' traced made' h) f1
