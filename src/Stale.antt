-- ===== src/Stale.antt =====
-- The collection of stale regions of src/staleblock.cc.
pub mod Merge
pub mod Reuse
mod Tests
