-- ===== src/Storage.antt =====
-- storage/: what is kept of a census, and how it is hashed and read back.
pub mod Encoding
pub mod Digests
pub mod Order
pub mod Injective
mod Tests
pub mod Repository
