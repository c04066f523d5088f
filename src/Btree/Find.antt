-- ===== src/Btree/Find.antt =====
-- `btree_find` of src/btree.cc. `read bid` is the node that `blk_read` and `_fetch_bnode` give for a
-- block; the value of an entry of an index node is the block number of the child, decoded.
pub mod Refine
use forestdb.Btree.Node.{Entry, Bnode, get_kv, at_leaf, btree_find_entry}
use forestdb.Common.{ℕ, Option, ◌-◌, suc, none, some, zero}

module _ (read : ℕ → Bnode) where
  -- The loop from level `i` down to the leaf.
  pub find_from : ℕ → ℕ → ℕ → Option ℕ
  find_from zero bid key = at_leaf (read bid) key (btree_find_entry (read bid) key)
  find_from (suc i) bid key = elim (btree_find_entry (read bid) key) [
    | none ↦ none
    | some idx ↦ find_from i (get_kv (read bid) idx).value key
  ]

  -- `none` is `BTREE_RESULT_FAIL`. A tree has at least one level.
  pub btree_find : ℕ → ℕ → ℕ → Option ℕ
  unfolding find_from
  btree_find height root_bid key = find_from (height - 1) root_bid key
