-- ===== src/Rpc.antt =====
-- rpc/: endpoints with their health, their selection, and what a failure means for the retry.
pub mod Classification
pub mod Endpoint
pub mod Pool
pub mod Client
mod Tests
