-- ===== src/Lib.antt =====
-- rpc-state-indexer publishes daily snapshots of on-chain state that it reads over JSON-RPC. This
-- library models its core: which blocks a log scan has covered and what it found, which block ends
-- a day, how endpoints are chosen, retried and left, how batches of calls at a historical block are
-- read and verified, and how the results of a census are stored, checked and published. Paths below
-- stand under src/rpc_state_indexer/.
--
-- The parts and how they interact. A client (rpc/client.py) sends requests to the endpoints of a
-- pool (rpc/endpoint_pool.py), whose health (rpc/endpoint.py) follows the classification of each
-- failure (rpc/classification.py). The scanner (core/discovery.py) and the anchor resolver
-- (core/anchors.py) ask the client; the executors (execution/) use its endpoints directly, and
-- decode what contracts return (evm/decoding.py). The census (core/census.py) stores what the
-- collectors return, reads it back through the repository (storage/), and publishes an attempt whose
-- digests agree. The discovery service (core/discovery_service.py) scans the gaps of an event's
-- coverage and stores what each scan has completed.
--
--   Prelude      tests on numbers, lists, results, state with failure, texts, signed integers.
--   Json, Hex    JSON values as the program reads them; the regular expressions, `int(_, 16)` and
--                `hex`.
--   Domain       domain.py: `BlockRef`, `UIntObservation` and the enumerations.
--   Discovery    core/discovery.py. Coverage: `BlockRange`, `merge_coverage`,
--                `contiguous_frontier`, `coverage_gaps`. Log: `LogFilter`, `_parse_log`. Dedup:
--                `deduplicate_logs`. Holders: `extract_holders`. Scanner: `StrictLogScanner`.
--                Service: core/discovery_service.py.
--   Anchors      core/anchors.py: `validate_resolved_anchor` and, in Resolver, `AnchorResolver`.
--   Evm          Bytes, Decoding: evm/decoding.py. Calldata: the words of evm/calldata.py.
--   Rpc          Classification, Endpoint, Pool: rpc/classification.py, rpc/endpoint.py,
--                rpc/endpoint_pool.py. Client, Client/Call: `AsyncRpcClient` of rpc/client.py.
--   Execution    Base: execution/base.py, execution/errors.py, execution/router.py. Digest:
--                `digest_raw_results`. Planner: `chunked`. LegacyBatch: the requests and responses
--                of a batch, and the block references of execution/verification.py. Sandwich: one
--                call pinned to the anchor. Multicall: `Multicall3Executor`, with `_eth_call` in
--                Execute and `_execute_once` in Once. Adaptive: `_execute_adaptive`. Groups: its
--                `execute`.
--   Universes    `_resolve_map` of core/universes.py.
--   Compute      `_segments` of compute/cl_profile.py.
--   Storage      Encoding, Digests: storage/digests.py. Repository: the rows and the read-backs of
--                storage/repositories.py.
--   Census       core/census.py. Base: the values, collectors/models.py and the insertions. Anchor:
--                `AnchorStoreService`. Rows, Persist: the `_persist_` methods. Evidence, Publish:
--                `_publication_checks` and the `_publish_` methods. Run: `run_token`, `run_pool`.
--   Collectors   Common, Execute: collectors/common.py. Reserves, Pools: collectors/pools.py.
--
-- Integers are the native numbers, since Python's do not wrap; times are whole nanoseconds. A
-- method that awaits is a function of a state that it returns again, beside what it returns or
-- raises. Exceptions are values: one type for each family, with a constructor for each `raise`.
--
-- Parameters. The HTTP library, the clock, `asyncio.sleep`, `str.casefold` and the text of an
-- error's data are the record `Net`; the ABI coder and the digest are the record `Coder`; the
-- holder table and the lists of addresses are the record `Sources`. The scanner and the resolver
-- of anchors take `rpc.call` as a parameter. The database is the record `Database`: an insertion is
-- stored, refused, or stored and reported as failed, and a read shows any rows. The collectors, the
-- verifier of code, the resolver of universes, the clock and the source of identifiers are the
-- record `Runner`; SHA-256 is a parameter. The service of discovery takes its registry of ABIs, its
-- provider and the database's answers as the record `Service`. The collector of reserves takes its
-- executor, which the executors' model can stand for.
--
-- Fuel. `for attempt in range(n)` is recursion on the attempts that are left. The scan's loop has
-- fuel for twice the number of requested blocks, the bisection for the number of the safe tip, and
-- the halving of a batch for its number of calls, the resolution of a universe for one level more
-- than there are universes; the theorems on termination show that this is enough.
--
-- Bounds of the model. The clock is read once for each selection of an endpoint. Requests follow
-- one another in the model; the client's semaphore and the rate gate, which only delay, are left
-- out. `Multicall3Executor.execute` is modelled for one batch at a time, and the runs of a census for
-- one target after another; the histories hold the rows of the modelled part alone. The `execute`,
-- the halving and the quorum of the legacy executor, the collectors of tokens and of liquidity, the
-- registration of configurations, the SQL text, the sweeps and the service are not modelled; the
-- configuration, the command line, the metrics and the scripts stand outside the core.
pub mod Prelude
pub mod Discovery
pub mod Json
pub mod Hex
pub mod Domain
pub mod Anchors
pub mod Evm
pub mod Rpc
pub mod Execution
pub mod Compute
pub mod Universes
pub mod Storage
pub mod Census
pub mod Collectors
