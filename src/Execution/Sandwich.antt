-- ===== src/Execution/Sandwich.antt =====
-- The reads of execution/verification.py and the body of the `try` of `_eth_call` in
-- execution/multicall3.py: one `eth_call` pinned to the anchor block.
pub mod Pinned
mod Tests
use rpc_state_indexer.Prelude.{ℕ, Bool, true, false, ◌++◌, Result, ok, err, if◌then◌else◌}
use rpc_state_indexer.Prelude.Text.{Text, text, text_eq}
use rpc_state_indexer.Prelude.Exec.{Exec, pure, raise, lift, ◌>>=◌, ◌>>◌}
use rpc_state_indexer.Json.{Json, bool, str, obj, arr, nil, cons, end, field, get}
use rpc_state_indexer.Hex.{hex}
use rpc_state_indexer.Domain.{BlockRef}
use rpc_state_indexer.Evm.Bytes.{Bytes}
use rpc_state_indexer.Rpc.Classification.{Failure, other_error}
use rpc_state_indexer.Rpc.Endpoint.{RpcEndpoint}
use rpc_state_indexer.Rpc.Client.{Net, Client, call_on_endpoint}
use rpc_state_indexer.Execution.Base.{ExecutionFault, anchor_hash_mismatch, not_decodable, rpc}
use rpc_state_indexer.Execution.LegacyBatch.{
  normalize_hash, eip1898_reference, number_reference, bytes_hex,
}

-- A caught exception: what it is, and what the classification sees of it.
pub record Caught : Type 0 where
  pub fault : ExecutionFault
  pub seen : Failure

abbrev pub caught_rpc : Failure → Caught
caught_rpc f = record { fault = rpc f; seen = f }

abbrev pub mismatch : Text → Caught
mismatch message = record { fault = anchor_hash_mismatch; seen = other_error message }

abbrev pub not_text : Caught
not_text = record {
  fault = not_decodable;
  seen = other_error (text "eth_call result must be hex data");
}

abbrev pub hash_or_mismatch : Result ExecutionFault Text → Result Caught Text
hash_or_mismatch (ok h) = ok h
hash_or_mismatch (err fault) = err (mismatch (text "invalid block hash"))

-- `normalize_hash` of the block's field.
unfoldable pub hash_of_block : Json → Result Caught Text
unfolding normalize_hash
hash_of_block (obj fields) = hash_or_mismatch (normalize_hash (get (text "hash") fields))
hash_of_block v = err (mismatch (text "block lookup returned no object"))

abbrev pub text_result : Json → Result Caught Text
text_result (str value) = ok value
text_result v = err not_text

module _ {S : Type 0} (net : Net S) where
  abbrev pub from_rpc : Result Failure Json × Client S → Result Caught Json × Client S
  from_rpc (ok v, s) = (ok v, s)
  from_rpc (err f, s) = (err (caught_rpc f), s)

  unfoldable pub read_block_hash : RpcEndpoint → ℕ → Exec (Client S) Caught Text
  unfolding ◌>>=◌ call_on_endpoint hash_of_block
  read_block_hash e number = do
    result ← (λ s. from_rpc (
        call_on_endpoint net e (text "eth_getBlockByNumber")
          (arr (cons (str (hex number)) (cons (bool false) nil))) s))
    lift (hash_of_block result)

  unfoldable pub assert_anchor_hash : RpcEndpoint → BlockRef → Exec (Client S) Caught (Unit {0})
  unfolding ◌>>=◌ read_block_hash
  assert_anchor_hash e anchor = do
    observed ← read_block_hash e anchor.number
    expected ← lift (hash_or_mismatch (normalize_hash (str anchor.block_hash)))
    if text_eq observed expected
        then pure tt
        else raise (mismatch (text "endpoint " ++ e.name ++ text " anchor hash mismatch"))

  abbrev pub unless :
      {E : Type 0} → Bool → Exec (Client S) E (Unit {0}) → Exec (Client S) E (Unit {0})
  unless true check s = (ok tt, s)
  unless false check s = check s

  abbrev pub call_params : Text → Bytes → Json → Json
  call_params address calldata reference = arr (
      cons
        (obj (
          field (text "to") (str address)
            (field (text "data") (str (text "0x" ++ bytes_hex calldata)) end)))
        (cons reference nil))

  -- The body of the `try`.
  unfoldable pub pinned_call :
      Text → Bytes → Json → BlockRef → RpcEndpoint → Exec (Client S) Caught Text
  unfolding ◌>>=◌ assert_anchor_hash call_on_endpoint
  pinned_call address calldata reference anchor e = do
    unless e.supports_eip1898 (assert_anchor_hash e anchor)
    result ← (λ s.
        from_rpc
          (call_on_endpoint net e (text "eth_call") (call_params address calldata reference) s))
    unless e.supports_eip1898 (assert_anchor_hash e anchor)
    lift (text_result result)

-- `eip1898_reference` or `number_reference`, as the endpoint takes it.
unfoldable pub reference_for : RpcEndpoint → BlockRef → Result ExecutionFault Json
unfolding eip1898_reference number_reference
reference_for e anchor =
    if e.supports_eip1898 then eip1898_reference anchor else ok (number_reference anchor)
