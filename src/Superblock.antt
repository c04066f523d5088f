-- ===== src/Superblock.antt =====
-- src/superblock.cc, the superblock with its bitmap of reusable blocks.
pub mod Bitmap
pub mod Index
pub mod State
pub mod Switch
pub mod Alloc
pub mod Reclaim
pub mod Writable
pub mod Format
pub mod Barrier
pub mod Recovery
pub mod Return
pub mod Decision
mod Tests
