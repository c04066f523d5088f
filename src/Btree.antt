-- ===== src/Btree.antt =====
-- src/btree.cc with the fixed-size entries of src/btree_kv.cc.
pub mod Node
pub mod Split
pub mod Find
mod Tests
