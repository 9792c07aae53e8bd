-- ===== src/Discovery/Fault.antt =====
-- The exceptions of core/discovery.py, one constructor for each `raise`.
use rpc_state_indexer.Prelude.{ℕ, List}
use rpc_state_indexer.Prelude.Text.{Text}
use rpc_state_indexer.Discovery.Coverage.{BlockRange}

-- `DiscoveryResponseError`; the field's name stands for the message that names it.
pub data ResponseFault : Type 0 where
  not_object bad_address unexpected_address bad_removed removed_log no_topics : ResponseFault
  outside_filter bad_data outside_range conflicting_logs not_array : ResponseFault
  missing_topic noncanonical_holder : ResponseFault
  bad_quantity bad_hash : Text → ResponseFault

-- `DiscoveryRangeFailed`, and last what stands for a loop that has run out of the model's fuel.
pub data RangeFault : Type 0 where
  one_block_limit one_block_cap : ℕ → RangeFault
  rpc_failed : BlockRange → RangeFault
  uncovered : List BlockRange → RangeFault
  out_of_fuel : RangeFault

-- `ValueError`.
pub data ValueFault : Type 0 where
  filter_address too_many_topics unconstrained empty_constraint bad_constraint : ValueFault
  bad_range bad_positions bad_scanner bad_token_address : ValueFault

pub data DiscoveryError : Type 0 where
  response : ResponseFault → DiscoveryError
  range_failed : RangeFault → DiscoveryError
  value : ValueFault → DiscoveryError
