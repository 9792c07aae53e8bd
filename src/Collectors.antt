-- ===== src/Collectors.antt =====
-- collectors/: what the executors return, as rows of observations and of errors.
pub mod Common
pub mod Execute
pub mod Observed
pub mod Outcomes
pub mod Reserves
pub mod Pools
mod Tests
