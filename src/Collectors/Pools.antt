-- ===== src/Collectors/Pools.antt =====
-- collectors/pools.py: the reserves of a pool, observed as each asset's `balanceOf(pool)`.
pub mod Complete
use rpc_state_indexer.Prelude.{Bool, true, false, not, List, [], ◌∷◌, some, length, leb, raise_if}
use rpc_state_indexer.Prelude.Int.{pos}
use rpc_state_indexer.Prelude.Text.{Text, text}
use rpc_state_indexer.Prelude.Exec.{Exec, pure, lift, ◌>>=◌, ◌>>◌}
use rpc_state_indexer.Domain.{BlockRef, IntegrityMode, pool_assets}
use rpc_state_indexer.Evm.Bytes.{Bytes}
use rpc_state_indexer.Storage.Encoding.{sort_by}
use rpc_state_indexer.Discovery.Dedup.{text_leb}
use rpc_state_indexer.Census.Base.{PoolConfig, PoolCollectionResult}
use rpc_state_indexer.Collectors.Common.{
  CollectorFault, wrong_mode, not_deployed, duplicate_assets, DecodedExecution, UIntCallSpec,
}
use rpc_state_indexer.Collectors.Execute.{Executor, execute_uint_calls, completeness_check}
use rpc_state_indexer.Collectors.Reserves.{Rows, distinct, reserve_specs, gather}

abbrev pub is_pool_assets : IntegrityMode → Bool
is_pool_assets pool_assets = true
is_pool_assets mode = false

-- `sorted(asset.token for asset in pool.assets)`.
unfoldable pub sorted_assets : PoolConfig → List Text
sorted_assets pool = sort_by text_leb pool.assets

unfoldable pub collection :
    PoolConfig → IntegrityMode → List UIntCallSpec → DecodedExecution → Rows → PoolCollectionResult
collection pool integrity_mode specs decoded rows =
    let check = completeness_check (length specs) decoded in
    record {
      pool_address = pool.address;
      integrity_mode = integrity_mode;
      expected_calls = length specs;
      balances = rows.0;
      collected = record {
        errors = rows.1;
        batches = decoded.batches;
        integrity_checks =
            record {
              passed = check.0;
              check = text "pool_asset_observations_complete";
              observed = some (pos check.1);
              expected = some (pos (length specs));
            }
            ∷ [];
      };
    }

module _ (casefold : Text → Text) (sha256 : Bytes → Text) {S : Type 0} (executor : Executor S) where
  unfoldable pub collect :
      PoolConfig → BlockRef → IntegrityMode → Exec S CollectorFault PoolCollectionResult
  collect pool anchor integrity_mode = do
    lift (raise_if (not (is_pool_assets integrity_mode)) wrong_mode)
    lift (raise_if (not (leb pool.deployment_block anchor.number)) not_deployed)
    lift (raise_if (not (distinct (sorted_assets pool))) duplicate_assets)
    specs ← lift (reserve_specs pool.address (sorted_assets pool))
    decoded ← execute_uint_calls casefold sha256 executor specs anchor
    rows ← lift (gather pool.address decoded.calls (sorted_assets pool) specs)
    pure (collection pool integrity_mode specs decoded rows)
