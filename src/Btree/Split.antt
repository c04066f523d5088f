-- ===== src/Btree/Split.antt =====
-- The first half of `_btree_split_node` of src/btree.cc: the entries of a node are shared among
-- `nnode` nodes.
pub mod Shares
use forestdb.Btree.Node.{Entry, Bnode, no_entry, get_kv, get_nth_idx}
use forestdb.Common.{
  ℕ, if◌then◌else◌, ◌<◌, ◌+◌, List, ◌*◌, ◌==◌, ◌-◌, suc, ◌/◌, set, ◌≡◌, ◌%◌, arith, get_or, zero,
}

-- `_copy_kv` between two nodes: `memcpy` of `len` entries.
pub copy_entries : List Entry → ℕ → List Entry → ℕ → ℕ → List Entry
copy_entries dst dst_idx src src_idx zero = dst
copy_entries dst dst_idx src src_idx (suc len) =
    copy_entries (set dst dst_idx (get_or src src_idx no_entry)) (dst_idx + 1) src (src_idx + 1) len

pub copy_kv : Bnode → Bnode → ℕ → ℕ → ℕ → Bnode
unfolding copy_entries
copy_kv dst src dst_idx src_idx len = record dst {
  kvs = copy_entries dst.kvs dst_idx src.kvs src_idx len;
}

-- `nentry[j]`
pub split_count : Bnode → ℕ → ℕ → ℕ
split_count node nnode j = get_nth_idx node (j + 1) nnode - get_nth_idx node j nnode

-- `new_node[j]` after the copies; `fresh` is the node of the newly allocated block, and the first
-- one is the old node itself.
pub split_part : Bnode → ℕ → Bnode → ℕ → Bnode
unfolding copy_kv split_count
split_part node nnode fresh j =
    if j == 0
    then record node { nentry = split_count node nnode 0 }
    else record (copy_kv fresh node 0 (get_nth_idx node j nnode) (split_count node nnode j)) {
      nentry = split_count node nnode j;
    }
