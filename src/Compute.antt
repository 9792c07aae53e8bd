-- ===== src/Compute.antt =====
-- compute/: what is derived from published rows.
pub mod ClProfile
mod Tests
