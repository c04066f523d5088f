-- ===== src/Wal.antt =====
-- The write-ahead log: the items of src/wal.cc by key, and the lookup by key. A key stands in one
-- shard, chosen by its checksum; the headers of all shards are one list here. Keys are compared
-- byte by byte.
pub mod Insert
pub mod Commit
pub mod Discard
pub mod Order
pub mod Snapshot
pub mod Changes
pub mod Isolation
mod Tests
use forestdb.Common.{
  [], ℕ, Bool, Option, if◌then◌else◌, List, ◌∷◌, ◌==◌, true, blk_not_found, some, false, none, ◌||◌,
  not, ◌&&◌,
}

pub data WalAction : Type 0 where
  act_insert : WalAction
  act_logical_remove : WalAction
  act_remove : WalAction

pub data IsolationLevel : Type 0 where
  read_committed : IsolationLevel
  read_uncommitted : IsolationLevel

-- `struct wal_item`; `id` is its address, and the flags are fields. The snapshot is its tag.
pub record WalItem : Type 0 where
  pub id : ℕ
  pub txn_id : ℕ
  pub snap_tag : ℕ
  pub action : WalAction
  pub committed : Bool
  pub flush_ready : Bool
  pub multi_kv : Bool
  pub flushed_out : Bool
  pub doc_size : ℕ
  pub offset : ℕ
  pub seqnum : ℕ

-- `struct _fdb_transaction`; `items` are the addresses of its items.
pub record FdbTxn : Type 0 where
  pub txn_id : ℕ
  pub isolation : IsolationLevel
  pub items : List ℕ

abbrev pub KeyMap : Type 0
KeyMap = List (List ℕ × List WalItem)

-- `struct wal`; `next_id` is the address of the next item.
pub record Wal : Type 0 where
  pub key_map : KeyMap
  pub size : ℕ
  pub num_flushable : ℕ
  pub datasize : ℕ
  pub mem_overhead : ℕ
  pub next_id : ℕ

-- What a lookup writes to the document and to `offset`.
pub record Found : Type 0 where
  pub offset : ℕ
  pub deleted : Bool
  pub seqnum : ℕ

unfoldable pub same_key : List ℕ → List ℕ → Bool
same_key [] [] = true
same_key [] (b ∷ bs) = false
same_key (a ∷ xs) [] = false
same_key (a ∷ xs) (b ∷ bs) = (a == b) && same_key xs bs

-- `avl_search` by key.
unfoldable pub lookup : List ℕ → KeyMap → Option (List WalItem)
unfolding same_key
lookup key [] = none
lookup key ((key', items) ∷ headers) =
    let rest = lookup key headers in if same_key key key' then some items else rest

-- The items of the header of a key, which is added if there is none.
unfoldable pub put : List ℕ → List WalItem → KeyMap → KeyMap
unfolding same_key
put key items [] = (key, items) ∷ []
put key items ((key', items') ∷ headers) =
    let rest = put key items headers in
    if same_key key key' then (key', items) ∷ headers else (key', items') ∷ rest

abbrev pub is_read_uncommitted : IsolationLevel → Bool
is_read_uncommitted read_committed = false
is_read_uncommitted read_uncommitted = true

abbrev pub is_insert : WalAction → Bool
is_insert act_insert = true
is_insert act_logical_remove = false
is_insert act_remove = false

abbrev pub is_remove : WalAction → Bool
is_remove act_insert = false
is_remove act_logical_remove = false
is_remove act_remove = true

-- A transaction sees its own items, and all of them if it reads what is uncommitted.
unfoldable pub visible : FdbTxn → WalItem → Bool
visible txn item = (item.txn_id == txn.txn_id) || is_read_uncommitted txn.isolation

abbrev pub reverse_onto : List WalItem → List WalItem → List WalItem
reverse_onto [] out = out
reverse_onto (i ∷ is) out = reverse_onto is (i ∷ out)

-- The scan from the end of the list, over the items behind the first committed one.
unfoldable pub scan_back : FdbTxn → List WalItem → Option WalItem
unfolding visible
scan_back txn [] = none
scan_back txn (item ∷ items) =
    let rest = scan_back txn items in
    if item.flushed_out
    then none
    else if item.committed || visible txn item
    then some item
    else rest

-- The first committed item: it is the last one of the list, or the scan goes on from the end.
unfoldable pub find_committed : FdbTxn → WalItem → List WalItem → Option WalItem
unfolding scan_back
find_committed txn item [] = if item.flushed_out then none else some item
find_committed txn item (next ∷ items) = scan_back txn (reverse_onto (next ∷ items) [])

-- The lookup in the items of a key, without a snapshot.
unfoldable pub find_items : FdbTxn → List WalItem → Option WalItem
unfolding visible find_committed
find_items txn [] = none
find_items txn (item ∷ items) =
    let rest = find_items txn items in
    if item.committed
    then find_committed txn item items
    else if item.flushed_out
    then none
    else if visible txn item
    then some item
    else rest

unfoldable pub found : WalItem → Found
found item = record {
  offset = if is_remove item.action then blk_not_found else item.offset;
  deleted = not (is_insert item.action);
  seqnum = item.seqnum;
}

-- The items of the header, if there is one.
abbrev pub items_of : Option (List WalItem) → List WalItem
items_of none = []
items_of (some items) = items

abbrev pub found_of : Option WalItem → Option Found
found_of none = none
found_of (some item) = some (found item)

-- `_wal_find` by key, without a snapshot. None is `FDB_RESULT_KEY_NOT_FOUND`.
unfoldable pub wal_find : FdbTxn → Wal → List ℕ → Option Found
unfolding lookup find_items found
wal_find txn wal key = found_of (find_items txn (items_of (lookup key wal.key_map)))
