-- ===== src/Execution.antt =====
-- execution/: historical calls in batches, each verified against the anchor block.
pub mod Base
pub mod Digest
pub mod Planner
pub mod Adaptive
pub mod Groups
pub mod LegacyBatch
pub mod Sandwich
pub mod Multicall
mod Tests
