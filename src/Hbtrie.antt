-- ===== src/Hbtrie.antt =====
-- The trie of B+trees of src/hbtrie.cc.
pub mod Key
mod Tests
