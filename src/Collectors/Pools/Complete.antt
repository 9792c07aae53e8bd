-- ===== src/Collectors/Pools/Complete.antt =====
-- What `PoolReserveCollector.collect` of collectors/pools.py returns.
use mathlib.Core.Path.{subst}
use rpc_state_indexer.Prelude.{
  ◌≡◌, refl, sym, ◌∙◌, Bool, true, false, not, List, [], ◌∷◌, map, Result, ok, err, raise_if, leb,
  arith,
}
use rpc_state_indexer.Prelude.Text.{Text}
use rpc_state_indexer.Prelude.Exec.{pure, lift, bind-returns}
use rpc_state_indexer.Domain.{BlockRef, IntegrityMode}
use rpc_state_indexer.Evm.Bytes.{Bytes}
use rpc_state_indexer.Execution.Base.{VerifiedBatchResult}
use rpc_state_indexer.Execution.Adaptive.{Batches}
use rpc_state_indexer.Census.Base.{
  PoolConfig, PoolCollectionResult, Collected, CollectionError, is_verified, no_errors,
}
use rpc_state_indexer.Collectors.Common.{
  UIntCallSpec, CollectorFault, DecodedExecution, unique_keys, decode_batches, wrong_mode,
  not_deployed, duplicate_assets,
}
use rpc_state_indexer.Collectors.Execute.{Executor, execute, awaited, call_of, execute_uint_calls}
use rpc_state_indexer.Collectors.Observed.{numbered, decode_batches-Traced}
use rpc_state_indexer.Collectors.Reserves.{distinct, reserve_specs, gather}
use rpc_state_indexer.Collectors.Outcomes.{
  token_of, Outcomes, Outcomes-tokens, reserve_specs-Keyed, gather-Outcomes,
}
use rpc_state_indexer.Collectors.Pools.{is_pool_assets, sorted_assets, collection, collect}

executed :
    {S : Type 0} (r : Batches S) {batches : List VerifiedBatchResult} {t : S}
    → awaited r ≡ (ok batches, t)
    → r ≡ (ok batches, t)
executed (ok batches, s) h = ground (arith, h)
executed (err fault, s) h = absurd (cc h)

lifted_ok :
    {S A : Type 0} {r : Result CollectorFault A} {s t : S} {a : A}
    → lift r s ≡ (ok a, t)
    → (r ≡ ok a) × (s ≡ t)
unfolding lift
lifted_ok h = (cc h, cc h)

pure_ok :
    {S A : Type 0} {a b : A} {s t : S}
    → pure {E = CollectorFault} a s ≡ (ok b, t)
    → (a ≡ b) × (s ≡ t)
unfolding pure
pure_ok h = (cc h, cc h)

tested :
    {S : Type 0} (test : Bool) (fault : CollectorFault) {s t : S} {u : Unit {0}}
    → lift (raise_if (not test) fault) s ≡ (ok u, t)
    → (test ≡ true) × (s ≡ t)
unfolding lift
tested true fault h = (refl, cc h)
tested false fault h = absurd (cc h)

empty : (errors : List CollectionError) → no_errors errors ≡ true → errors ≡ []
empty [] h = refl
empty (e ∷ errors) h = absurd (cc h)

no_error : (collected : Collected) → is_verified collected ≡ true → collected.errors ≡ []
unfolding is_verified
no_error collected h = empty collected.errors (ground (arith, h))

module _ (casefold : Text → Text) (sha256 : Bytes → Text) {S : Type 0} (executor : Executor S)
    (pool : PoolConfig) (anchor : BlockRef) where
  execute_uint_calls-returns :
      (specs : List UIntCallSpec) {s t : S} {decoded : DecodedExecution}
      → execute_uint_calls casefold sha256 executor specs anchor s ≡ (ok decoded, t)
      → (batches : List VerifiedBatchResult) × (executor (map call_of specs) anchor s
          ≡ (ok batches, t))
        × (decode_batches casefold sha256 anchor specs batches ≡ ok decoded)
  unfolding execute_uint_calls
  execute_uint_calls-returns specs e =
      let (u, s1, e1, f1) = bind-returns (lift (unique_keys [] specs)) _ e in
      let (batches, s2, e2, f2) = bind-returns (execute executor anchor (map call_of specs)) _ f1 in
      let (unique, same) = lifted_ok e1 in
      let (decodes, ended) = lifted_ok f2 in
      let answered = executed (executor (map call_of specs) anchor s1) e2 in
      (batches, cc (answered, same, ended), decodes)

  -- The executor has returned the batches; the result carries their evidence, and for each asset
  -- what they show.
  pub record PoolCollected (s t : S) (result : PoolCollectionResult) : Type 0 where
    pub batches : List VerifiedBatchResult
    pub specs : List UIntCallSpec
    pub asked : reserve_specs pool.address (sorted_assets pool) ≡ ok specs
    pub answered : executor (map call_of specs) anchor s ≡ (ok batches, t)
    pub deployed : leb pool.deployment_block anchor.number ≡ true
    pub evidence : result.collected.batches ≡ numbered 0 batches
    pub outcomes :
        Outcomes pool.address sha256 anchor batches
          (sorted_assets pool)
          result.balances
          result.collected.errors
    pub whole :
        is_verified result.collected ≡ true → map token_of result.balances ≡ sorted_assets pool

  whole_when :
      (batches : List VerifiedBatchResult) (result : PoolCollectionResult)
      → Outcomes pool.address sha256 anchor batches
          (sorted_assets pool)
          result.balances
          result.collected.errors
      → is_verified result.collected ≡ true
      → map token_of result.balances ≡ sorted_assets pool
  whole_when batches result outcomes h = Outcomes-tokens pool.address sha256 anchor batches (
      subst (Outcomes pool.address sha256 anchor batches (sorted_assets pool) result.balances)
        (no_error result.collected h) outcomes)

  -- A collection of reserves that returns has asked the executor once, for `balanceOf(pool)` of
  -- every asset, at a block from the pool's deployment on, and carries the evidence of the batches
  -- that came back. For each asset in order it holds either a balance, which is the number of the
  -- 32 bytes that the call of that asset returned in a batch that is verified, at the anchor's hash
  -- and with the digest of its results; or an error of that asset, whose result in such a batch
  -- failed or was no word. Where the result is verified, it holds a balance of every asset.
  pub collect-PoolCollected :
      (mode : IntegrityMode) (s t : S) (result : PoolCollectionResult)
      → collect casefold sha256 executor pool anchor mode s ≡ (ok result, t)
      → PoolCollected s t result
  unfolding collect collection pure
  collect-PoolCollected mode s t result e =
      let (u1, s1, e1, f1) =
        bind-returns (lift (raise_if (not (is_pool_assets mode)) wrong_mode)) _ e in
      let (u2, s2, e2, f2) =
        bind-returns (lift (raise_if (not (leb pool.deployment_block anchor.number)) not_deployed))
          _ f1 in
      let (u3, s3, e3, f3) =
        bind-returns (lift (raise_if (not (distinct (sorted_assets pool))) duplicate_assets)) _
          f2 in
      let (specs, s4, e4, f4) =
        bind-returns (lift (reserve_specs pool.address (sorted_assets pool))) _ f3 in
      let (decoded, s5, e5, f5) =
        bind-returns (execute_uint_calls casefold sha256 executor specs anchor) _ f4 in
      let (rows, s6, e6, f6) =
        bind-returns (lift (gather pool.address decoded.calls (sorted_assets pool) specs)) _ f5 in
      let (ran, s0) = tested (is_pool_assets mode) wrong_mode e1 in
      let (deployed, s0') = tested (leb pool.deployment_block anchor.number) not_deployed e2 in
      let (apart, s0'') = tested (distinct (sorted_assets pool)) duplicate_assets e3 in
      let (asked, s0''') = lifted_ok e4 in
      let (gathered, s6_is) = lifted_ok e6 in
      let (batches, answered, decodes) = execute_uint_calls-returns specs e5 in
      let (traced, evidence) = decode_batches-Traced sha256 anchor casefold specs batches decodes in
      let outcomes =
        gather-Outcomes pool.address sha256 anchor batches casefold specs
          (reserve_specs-Keyed pool.address (sorted_assets pool) asked) decoded.calls
          (sorted_assets pool) specs traced asked gathered in
      let (made, at_end) = pure_ok f6 in
      subst (PoolCollected s t) made (record {
        batches = batches;
        specs = specs;
        asked = asked;
        answered =
            subst (λ (x : S). executor (map call_of specs) anchor x ≡ (ok batches, t))
              (sym (s0 ∙ s0' ∙ s0'' ∙ s0'''))
              (subst (λ (y : S). executor (map call_of specs) anchor s4 ≡ (ok batches, y))
                (s6_is ∙ at_end) answered);
        deployed = deployed;
        evidence = evidence;
        outcomes = outcomes;
        whole = whole_when batches (collection pool mode specs decoded rows) outcomes;
      })
