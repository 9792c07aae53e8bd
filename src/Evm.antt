-- ===== src/Evm.antt =====
-- evm/decoding.py: returned data decoded strictly, so that a failure is never read as a zero.
pub mod Bytes
pub mod Decoding
pub mod Calldata
mod Tests
