-- ===== src/Census.antt =====
-- core/census.py: the attempts of a census, from the row `started` to the publication.
pub mod Base
pub mod Anchor
pub mod Rows
pub mod Persist
pub mod Evidence
pub mod Publish
pub mod Run
mod Tests
