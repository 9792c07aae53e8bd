-- ===== src/Discovery.antt =====
-- core/discovery.py: gap-free event discovery over half-open block ranges. `Coverage` is the
-- arithmetic of completed ranges, `Fault` the exceptions, `Log` the strict decoding of a log.
pub mod Coverage
pub mod Fault
pub mod Log
pub mod Dedup
pub mod Holders
pub mod Scanner
pub mod Service
pub mod Tests
