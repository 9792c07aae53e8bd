-- ===== src/Rpc/Pool.antt =====
-- `EndpointPool` of rpc/endpoint_pool.py. Endpoints are shared objects there: here the pool holds
-- them, and what is recorded of one is written where its name stands.
pub mod Select
pub mod Groups
use rpc_state_indexer.Prelude.{
  ℕ, zero, suc, ◌+◌, ◌%◌, Bool, true, false, not, ◌&&◌, ◌||◌, Option, none, some, List, [], ◌∷◌,
  ◌++◌, map, Result, ok, err, raise_if, ◌>>=◌, ◌>>◌, length, get_elem?, ltb, ◌==◌, if◌then◌else◌,
}
use rpc_state_indexer.Prelude.Text.{Text, text_eq, text_in}
use rpc_state_indexer.Rpc.Endpoint.{RpcEndpoint, can_serve, succeeded, failed}

pub record EndpointPool : Type 0 where
  pub endpoints : List RpcEndpoint
  pub cursor : ℕ

pub data PoolFault : Type 0 where
  no_endpoints names_not_unique bad_count : PoolFault
  no_healthy_endpoint : PoolFault

abbrev pub names : List RpcEndpoint → List Text
names [] = []
names (e ∷ es) = e.name ∷ names es

-- `len(names) != len(set(names))` is the negation.
abbrev pub unique : List Text → Bool
unique [] = true
unique (t ∷ ts) = not (text_in t ts) && unique ts

unfoldable pub make_pool : List RpcEndpoint → Result PoolFault EndpointPool
make_pool [] = err no_endpoints
make_pool (e ∷ es) =
    if unique (names (e ∷ es))
    then ok (record { endpoints = e ∷ es; cursor = 0 })
    else err names_not_unique

-- The tests that `select` makes of one endpoint.
unfoldable pub selectable : ℕ → Option ℕ → Bool → List Text → RpcEndpoint → Bool
selectable now historical_block require_eip1898 exclude e =
    not (text_in e.name exclude)
    && not (require_eip1898 && not e.supports_eip1898)
    && can_serve now e historical_block

-- `for offset in range(count)`, over the `left` offsets from `offset` on: the index of the first
-- endpoint that passes.
unfoldable pub select_loop :
    (RpcEndpoint → Bool) → List RpcEndpoint → ℕ → ℕ → ℕ → Option (ℕ × RpcEndpoint)
select_loop test es cursor zero offset = none
select_loop test es cursor (suc left) offset =
    let index = (cursor + offset) % length es in
    let rest = select_loop test es cursor left (offset + 1) in
    elim (get_elem? es index) [ none ↦ rest | some e ↦ if test e then some (index, e) else rest ]

abbrev pub advance :
    EndpointPool → Option (ℕ × RpcEndpoint) → Result PoolFault RpcEndpoint × EndpointPool
advance pool none = (err no_healthy_endpoint, pool)
advance pool (some (index, e)) =
    (ok e, record { endpoints = pool.endpoints; cursor = (index + 1) % length pool.endpoints })

unfoldable pub select :
    ℕ → Option ℕ → Bool → List Text → EndpointPool → Result PoolFault RpcEndpoint × EndpointPool
unfolding select_loop selectable
select now historical_block require_eip1898 exclude pool = advance pool (
    select_loop (selectable now historical_block require_eip1898 exclude) pool.endpoints pool.cursor
      (length pool.endpoints) 0)

-- The loop of `select_distinct_groups`; `selected` in order, with its groups.
unfoldable pub groups_loop :
    ℕ
    → Option ℕ
    → ℕ
    → List RpcEndpoint
    → List Text
    → List RpcEndpoint
    → Result PoolFault (List RpcEndpoint)
groups_loop now historical_block count selected groups [] = err no_healthy_endpoint
groups_loop now historical_block count selected groups (e ∷ es) =
    let skip = groups_loop now historical_block count selected groups es in
    let chosen = selected ++ e ∷ [] in
    let next = groups_loop now historical_block count chosen (e.provider_group ∷ groups) es in
    if text_in e.provider_group groups
    then skip
    else if not (can_serve now e historical_block)
    then skip
    else if length chosen == count
    then ok chosen
    else next

unfoldable pub select_distinct_groups :
    ℕ → ℕ → Option ℕ → EndpointPool → Result PoolFault (List RpcEndpoint)
unfolding groups_loop
select_distinct_groups now count historical_block pool =
    if ltb count 1
    then err bad_count
    else groups_loop now historical_block count [] [] pool.endpoints

abbrev pub update : Text → (RpcEndpoint → RpcEndpoint) → List RpcEndpoint → List RpcEndpoint
update name f [] = []
update name f (e ∷ es) = (if text_eq e.name name then f e else e) ∷ update name f es

unfoldable pub record_success : RpcEndpoint → EndpointPool → EndpointPool
unfolding succeeded
record_success e pool = record {
  endpoints = update e.name succeeded pool.endpoints;
  cursor = pool.cursor;
}

unfoldable pub record_failure :
    ℕ → Bool → Option ℕ → Bool → RpcEndpoint → EndpointPool → EndpointPool
unfolding failed
record_failure now failover historical_block archive_unavailable e pool = record {
  endpoints =
      update e.name (failed now failover historical_block archive_unavailable) pool.endpoints;
  cursor = pool.cursor;
}
