-- ===== src/Execution/Sandwich/Tests.antt =====
-- A node that takes block numbers only, asked for the hash, the call and the hash again.
use rpc_state_indexer.Prelude.{
  ℕ, zero, suc, ◌+◌, ◌≡◌, refl, true, false, none, some, [], ◌∷◌, ◌++◌, replicate, ok,
}
use rpc_state_indexer.Prelude.Int.{pos}
use rpc_state_indexer.Prelude.Text.{Text, text}
use rpc_state_indexer.Json.{Json, str, int, obj, field, end}
use rpc_state_indexer.Domain.{BlockRef}
use rpc_state_indexer.Rpc.Endpoint.{RpcEndpoint}
use rpc_state_indexer.Rpc.Client.{Net, Client, call_on_endpoint}
use rpc_state_indexer.Execution.Sandwich.{call_params, pinned_call}
use rpc_state_indexer.Execution.Sandwich.Pinned.{ShowsAnchor, pinned_call-ShowsAnchor}

abbrev zero_hash : Text
zero_hash = text "0x" ++ replicate 64 48

abbrev anchor : BlockRef
anchor = record { number = 5; block_hash = zero_hash; parent_hash = zero_hash; timestamp = 9 }

abbrev answer : ℕ → Json
answer (suc zero) = str (text "0x07")
answer n = obj (field (text "hash") (str zero_hash) end)

abbrev node : Net ℕ
node = record {
  now = λ s. s;
  sleep = λ d s. s;
  post = λ e body s. (
    ok (record {
      status_code = 200;
      reason_phrase = [];
      retry_after = none;
      body =
          some (obj (field (text "id") (int (pos (s + 1))) (field (text "result") (answer s) end)));
    }),
    s + 1,
  );
  casefold = λ t. t;
  data_text = λ v. [];
}

abbrev endpoint : RpcEndpoint
endpoint = record {
  name = text "a";
  provider_group = text "x";
  supports_http_batch = true;
  supports_eip1898 = false;
  archive_from_block = none;
  healthy = true;
  consecutive_failures = 0;
  cooldown_until = 0;
  archive_unavailable_through = none;
}

abbrev client : ℕ → Client ℕ
client n = record {
  endpoint_pool = record { endpoints = endpoint ∷ []; cursor = 0 };
  request_id = n;
  net_state = n;
}

reads :
    pinned_call node (text "0xca") [] (str (text "0x5")) anchor endpoint (client 0)
    ≡ (ok (text "0x07"), client 3)
unfolding pinned_call rpc_state_indexer.Hex.is_hash rpc_state_indexer.Hex.lower_char
reads = refl

pinned_call-ShowsAnchor_example :
    (s₁ : Client ℕ) × (s₂ : Client ℕ) × ShowsAnchor node endpoint anchor (client 0) s₁
    × (call_on_endpoint node endpoint
          (text "eth_call")
          (call_params node (text "0xca") [] (str (text "0x5")))
          s₁
        ≡ (ok (str (text "0x07")), s₂))
    × ShowsAnchor node endpoint anchor s₂ (client 3)
pinned_call-ShowsAnchor_example =
    pinned_call-ShowsAnchor node (text "0xca") [] (str (text "0x5")) anchor endpoint (client 0)
      (client 3) (text "0x07") refl reads
