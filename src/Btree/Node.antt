-- ===== src/Btree/Node.antt =====
-- A node of the B+tree: the functions on one node of src/btree.cc, with `_get_kv`, `_set_kv`,
-- `_ins_kv`, `_copy_kv` and `_get_nth_idx` of src/btree_kv.cc. A key is the number that
-- `_cmp_uint64_t` compares, or the big-endian number of a binary key; the space behind the header
-- is an array of entries, of which the first `nentry` are in use.
pub mod Sorted
pub mod Moves
pub mod Lookup
pub mod Add
pub mod Put
pub mod Remove
use forestdb.Common.{
  ℕ, if◌then◌else◌, get_or, ◌-◌, List, set, suc, Option, ◌/◌, ◌+◌, ltb, ◌==◌, some, none, zero, ◌*◌,
  leb,
}

pub record Entry : Type 0 where
  pub key : ℕ
  pub value : ℕ

-- `struct bnode`, with `data` as `kvs`; the sizes of keys and values are those of the tree.
pub record Bnode : Type 0 where
  pub flag : ℕ
  pub level : ℕ
  pub nentry : ℕ
  pub kvs : List Entry

abbrev pub no_entry : Entry
no_entry = record { key = 0; value = 0 }

-- `_get_kv`
abbrev pub get_kv : Bnode → ℕ → Entry
get_kv node idx = get_or node.kvs idx no_entry

-- `_set_kv`
pub set_kv : Bnode → ℕ → Entry → Bnode
set_kv node idx e = record node { kvs = set node.kvs idx e }

-- `memmove` of the entries from `from` on by one place, `n` of them: up, the last one first, or down.
pub move_up : List Entry → ℕ → ℕ → List Entry
move_up kvs from zero = kvs
move_up kvs from (suc n) = move_up (set kvs (from + n + 1) (get_or kvs (from + n) no_entry)) from n

pub move_down : List Entry → ℕ → ℕ → List Entry
move_down kvs from zero = kvs
move_down kvs from (suc n) = move_down (set kvs (from - 1) (get_or kvs from no_entry)) (from + 1) n

-- `_ins_kv`, which inserts an entry, or removes one if there is none to insert
pub ins_kv : Bnode → ℕ → Option Entry → Bnode
ins_kv node idx (some e) = record node {
  kvs = set (move_up node.kvs idx (node.nentry - idx)) idx e;
}
ins_kv node idx none = record node { kvs = move_down node.kvs (idx + 1) (node.nentry - (idx + 1)) }

-- `_get_nth_idx`
unfoldable pub get_nth_idx : Bnode → ℕ → ℕ → ℕ
get_nth_idx node num den =
    let rem = node.nentry - node.nentry / den * den in
    node.nentry / den * num + (if ltb num rem then num else rem)

-- The binary search of `_btree_find_entry`, as compiled with `__BIT_CMP`: an equal key ends the
-- loop by `end = 0`. None if the fuel runs out, before the loop has ended.
unfoldable pub search_loop : ℕ → Bnode → ℕ → ℕ → ℕ → Option ℕ
search_loop zero node key start end = none
search_loop (suc fuel) node key start end =
    let middle = (start + end) / 2 in
    let k = (get_kv node middle).key in
    let left = search_loop fuel node key start middle in
    let right = search_loop fuel node key middle end in
    let found = search_loop fuel node key middle 0 in
    if ltb (start + 1) end
    then if ltb key k then left else if key == k then found else right
    else some start

-- `_btree_find_entry`; none is `BTREE_IDX_NOT_FOUND`, or a binary search that has not ended
unfoldable pub btree_find_entry : Bnode → ℕ → Option ℕ
unfolding search_loop
btree_find_entry node key =
    if node.nentry == 0
    then none
    else if ltb key (get_kv node 0).key
    then none
    else if leb (get_kv node (node.nentry - 1)).key key
    then some (node.nentry - 1)
    else search_loop node.nentry node key 0 node.nentry

-- The entry is new: those from `idx_insert` on move up.
pub insert_at : Bnode → ℕ → Entry → Bnode
unfolding set_kv ins_kv
insert_at node idx_insert e =
    let node' =
      if ltb idx_insert node.nentry
      then ins_kv node idx_insert (some e)
      else set_kv node idx_insert e in
    record node' { nentry = node.nentry + 1 }

-- What follows the search in `_btree_add_entry`.
pub add_found : Bnode → Entry → Option ℕ → ℕ × Bnode
unfolding insert_at set_kv
add_found node e none = (0, insert_at node 0 e)
add_found node e (some idx) =
    if e.key == (get_kv node idx).key
    then (idx, set_kv node idx e)
    else (idx + 1, insert_at node (idx + 1) e)

-- `_btree_add_entry`: where it was put, and the node.
pub btree_add_entry : Bnode → Entry → ℕ × Bnode
unfolding add_found
btree_add_entry node e =
    if node.nentry == 0
    then (0, insert_at node 0 e)
    else add_found node e (btree_find_entry node e.key)

-- What follows the search in `_btree_remove_entry`.
pub remove_found : Bnode → Option ℕ → Option ℕ × Bnode
unfolding ins_kv
remove_found node none = (none, node)
remove_found node (some idx) =
    (some idx, record (ins_kv node idx none) { nentry = node.nentry - 1 })

-- `_btree_remove_entry`
unfoldable pub btree_remove_entry : Bnode → ℕ → Option ℕ × Bnode
unfolding remove_found
btree_remove_entry node key =
    if node.nentry == 0 then (none, node) else remove_found node (btree_find_entry node key)

-- In a leaf `btree_find` compares the key with the one found.
abbrev pub at_leaf : Bnode → ℕ → Option ℕ → Option ℕ
at_leaf node key none = none
at_leaf node key (some idx) =
    if key == (get_kv node idx).key then some (get_kv node idx).value else none
