-- ===== src/Execution/Multicall/Whole.antt =====
-- A whole execution of `Multicall3Executor`.
use rpc_state_indexer.Prelude.{ℕ, ◌<◌, ◌≡◌, refl, List, ok, err}
use rpc_state_indexer.Prelude.Text.{Text}
use rpc_state_indexer.Domain.{BlockRef}
use rpc_state_indexer.Rpc.Client.{Net, Limits, Client}
use rpc_state_indexer.Execution.Base.{ContractCall}
use rpc_state_indexer.Execution.Adaptive.{Attempts, Complete}
use rpc_state_indexer.Execution.Groups.{execute_from}
use rpc_state_indexer.Execution.Groups.Order.{execute_from-Complete}
use rpc_state_indexer.Execution.Multicall.{Coder}
use rpc_state_indexer.Execution.Multicall.Once.{Once, execute_once}
use rpc_state_indexer.Execution.Multicall.Verified.{execute_once-Each}

module _ {S : Type 0} (net : Net S) (limits : Limits) (coder : Coder) (address : Text)
    (anchor : BlockRef) where
  execute_once-Attempts :
      (calls : List ContractCall) (s : Client S) (r : Once S)
      → execute_once net limits coder address anchor calls s ≡ r
      → Attempts calls r
  execute_once-Attempts calls s (ok batch, t) h =
      (execute_once-Each net limits coder address anchor calls s batch t h).1
  execute_once-Attempts calls s (err fault, t) h = tt

  -- `Multicall3Executor.execute`, its batches one after another, with a positive batch size:
  -- whatever the endpoints answer and however batches are halved, it ends, and returns the results
  -- of all calls, under their keys and in their order, or raises.
  pub execute_from-execute_once :
      (deployment size : ℕ) (calls : List ContractCall) (s : Client S)
      → 0 < size
      → Complete calls (
          execute_from
            (execute_once net limits coder address anchor)
            deployment
            size
            anchor
            calls
            s)
  execute_from-execute_once deployment size calls s positive =
      execute_from-Complete (execute_once net limits coder address anchor)
        (λ cs t. execute_once-Attempts cs t _ refl) deployment size anchor calls s positive
