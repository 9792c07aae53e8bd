-- ===== src/Rpc/Endpoint.antt =====
-- rpc/endpoint.py: an endpoint's health. Times are nanoseconds of `time.monotonic`, which is the
-- argument `now`.
pub mod Health
use rpc_state_indexer.Prelude.{
  ℕ, ◌+◌, ◌*◌, ◌^◌, ◌≤◌, ◌<◌, ◌≡◌, refl, ◌↔◌, ◌⊎◌, inl, inr, Bool, true, false, not, ◌&&◌, Option,
  none, some, min, max, ltb, leb, if◌then◌else◌, arith,
}
use rpc_state_indexer.Prelude.Text.{Text}

pub record RpcEndpoint : Type 0 where
  pub name : Text
  pub provider_group : Text
  pub supports_http_batch : Bool
  pub supports_eip1898 : Bool
  pub archive_from_block : Option ℕ
  pub healthy : Bool
  pub consecutive_failures : ℕ
  pub cooldown_until : ℕ
  pub archive_unavailable_through : Option ℕ

abbrev pub from_on : Option ℕ → ℕ → Bool
from_on none block = true
from_on (some first) block = not (ltb block first)

abbrev pub after : Option ℕ → ℕ → Bool
after none block = true
after (some last) block = not (leb block last)

abbrev pub serves_block : RpcEndpoint → Option ℕ → Bool
serves_block e none = true
serves_block e (some block) =
    from_on e.archive_from_block block && after e.archive_unavailable_through block

unfoldable pub can_serve : ℕ → RpcEndpoint → Option ℕ → Bool
can_serve now e historical_block =
    if not e.healthy && ltb now e.cooldown_until then false else serves_block e historical_block

-- `EndpointPool.record_success` on the endpoint.
unfoldable pub succeeded : RpcEndpoint → RpcEndpoint
succeeded e = record {
  name = e.name;
  provider_group = e.provider_group;
  supports_http_batch = e.supports_http_batch;
  supports_eip1898 = e.supports_eip1898;
  archive_from_block = e.archive_from_block;
  healthy = true;
  consecutive_failures = 0;
  cooldown_until = 0;
  archive_unavailable_through = e.archive_unavailable_through;
}

abbrev pub second : ℕ
second = 1000000000

-- `min(60.0, float(2 ** min(failures, 6)))`.
abbrev pub cooldown : ℕ → ℕ
cooldown failures = min 60 (2 ^ min failures 6) * second

abbrev pub or_zero : Option ℕ → ℕ
or_zero none = 0
or_zero (some n) = n

abbrev pub through : Bool → Option ℕ → Option ℕ → Option ℕ
through true previous (some block) = some (max (or_zero previous) block)
through _ previous block = previous

-- `EndpointPool.record_failure` on the endpoint.
unfoldable pub failed : ℕ → Bool → Option ℕ → Bool → RpcEndpoint → RpcEndpoint
failed now failover historical_block archive_unavailable e =
    let failures = e.consecutive_failures + 1 in
    record {
      name = e.name;
      provider_group = e.provider_group;
      supports_http_batch = e.supports_http_batch;
      supports_eip1898 = e.supports_eip1898;
      archive_from_block = e.archive_from_block;
      healthy = if failover then false else e.healthy;
      consecutive_failures = failures;
      cooldown_until = if failover then now + cooldown failures else e.cooldown_until;
      archive_unavailable_through =
          through archive_unavailable e.archive_unavailable_through historical_block;
    }
