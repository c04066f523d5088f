-- ===== src/Wal/Insert.antt =====
-- `_wal_insert` of src/wal.cc: a document enters the write-ahead log.
use forestdb.Common.{
  [], ℕ, ◌+◌, List, Bool, ◌++◌, ◌∷◌, false, ◌==◌, if◌then◌else◌, Option, ◌%◌, ◌&&◌, not, some,
  add64, true, none, ◌^◌, length, blk_not_found, sub64, ◌||◌,
}
use forestdb.Wal.{
  WalAction, act_insert, act_logical_remove, act_remove, WalItem, FdbTxn, Wal, lookup, put,
  is_insert, is_remove,
}

-- The fields of `fdb_doc` that the log uses.
pub record FdbDoc : Type 0 where
  pub key : List ℕ
  pub seqnum : ℕ
  pub size_ondisk : ℕ
  pub deleted : Bool

pub data InsertBy : Type 0 where
  ins_writer : InsertBy
  ins_compact_phase1 : InsertBy
  ins_compact_phase2 : InsertBy

-- `_wal_update_type`
pub data UpdateType : Type 0 where
  new_del : UpdateType
  new_set : UpdateType
  set_to_del : UpdateType
  del_to_set : UpdateType
  drop_delete : UpdateType
  drop_set : UpdateType

-- The calls of other components, the tree of items by sequence number among them.
pub data Call : Type 0 where
  fetch_snapshot : ℕ → Call
  snapshot_decr : Call
  update_stat : ℕ → UpdateType → Call
  mark_stale : ℕ → ℕ → Call
  seq_insert : ℕ → ℕ → Call
  seq_remove : ℕ → ℕ → Call
  commit_mark : ℕ → Call

-- The configuration of the file, the id of its global transaction, and the sizes of the structures.
pub record Config : Type 0 where
  pub global_txn_id : ℕ
  pub seqtree_use : Bool
  pub multi_kv : Bool
  pub item_bytes : ℕ
  pub header_bytes : ℕ

abbrev pub is_phase1 : InsertBy → Bool
is_phase1 ins_writer = false
is_phase1 ins_compact_phase1 = true
is_phase1 ins_compact_phase2 = false

abbrev add32 : ℕ → ℕ → ℕ
add32 a b = (a + b) % 2 ^ 32

abbrev pub keep_item : WalItem → Option (WalItem × List WalItem) → Option (WalItem × List WalItem)
keep_item item none = none
keep_item item (some (i, is)) = some (i, item ∷ is)

-- The first item with a property, and the others.
unfoldable pub take_item : (WalItem → Bool) → List WalItem → Option (WalItem × List WalItem)
take_item p [] = none
take_item p (item ∷ items) =
    let rest = take_item p items in if p item then some (item, items) else keep_item item rest

module _ (cfg : Config) (caller : InsertBy) (immediate_remove : Bool) (snap_tag kv_id : ℕ) where
  -- An uncommitted item of the same transaction and of the current snapshot.
  unfoldable pub is_own : FdbTxn → WalItem → Bool
  is_own txn item =
      (item.txn_id == txn.txn_id)
      && (not (item.committed || is_phase1 caller) && (item.snap_tag == snap_tag))

  -- A deleted document stays until it is purged, unless it is dropped right away.
  unfoldable pub new_action : FdbDoc → ℕ → WalAction
  new_action doc offset =
      if doc.deleted
      then if not (offset == blk_not_found) && not immediate_remove
        then act_logical_remove
        else act_remove
      else act_insert

  -- The deletion mark of a document that is dropped is stale at once.
  unfoldable pub drop_calls : FdbDoc → ℕ → List Call
  unfolding new_action
  drop_calls doc offset =
      if is_remove (new_action doc offset) && not (offset == blk_not_found)
      then mark_stale offset doc.size_ondisk ∷ []
      else []

  -- The item is overwritten.
  unfoldable pub overwritten : WalItem → FdbDoc → ℕ → WalItem
  unfolding new_action
  overwritten item doc offset = record item {
    flush_ready = false;
    seqnum = doc.seqnum;
    action = new_action doc offset;
    doc_size = doc.size_ondisk;
    offset = offset;
    snap_tag = snap_tag;
  }

  unfoldable pub overwrite_calls : WalItem → FdbDoc → ℕ → List Call
  unfolding drop_calls
  overwrite_calls item doc offset =
      let global = item.txn_id == cfg.global_txn_id in
      (if cfg.seqtree_use
        then seq_remove item.seqnum item.id ∷ seq_insert doc.seqnum item.id ∷ []
        else [])
      ++ ((if is_remove item.action then [] else mark_stale item.offset item.doc_size ∷ [])
          ++ ((if doc.deleted
                then if global && is_insert item.action
                  then update_stat kv_id set_to_del ∷ []
                  else []
                else if global && not (is_insert item.action)
                then update_stat kv_id del_to_set ∷ []
                else [])
              ++ (drop_calls doc offset ++ (snapshot_decr ∷ []))))

  unfoldable pub overwrite : Wal → WalItem → List WalItem → FdbDoc → ℕ → Wal
  unfolding overwritten
  overwrite wal item others doc offset =
      let doc_size_ondisk = if is_remove (new_action doc offset) then 0 else doc.size_ondisk in
      record wal {
        key_map = put doc.key (overwritten item doc offset ∷ others) wal.key_map;
        datasize = add64 wal.datasize (sub64 doc_size_ondisk item.doc_size);
      }

  unfoldable pub new_item : FdbTxn → ℕ → Bool → FdbDoc → ℕ → WalItem
  unfolding new_action
  new_item txn id committed doc offset = record {
    id = id;
    txn_id = txn.txn_id;
    snap_tag = snap_tag;
    action = new_action doc offset;
    committed = committed;
    flush_ready = false;
    multi_kv = cfg.multi_kv;
    flushed_out = false;
    doc_size = doc.size_ondisk;
    offset = offset;
    seqnum = doc.seqnum;
  }

  unfoldable pub new_calls : FdbTxn → ℕ → FdbDoc → ℕ → List Call
  unfolding drop_calls
  new_calls txn id doc offset =
      (if txn.txn_id == cfg.global_txn_id
        then update_stat kv_id (if doc.deleted then new_del else new_set) ∷ []
        else [])
      ++ (drop_calls doc offset ++ (if cfg.seqtree_use then seq_insert doc.seqnum id ∷ [] else []))

  -- The counters after a new item; `bytes` are its memory.
  unfoldable pub add_item : Wal → FdbTxn → List WalItem → ℕ → FdbDoc → ℕ → Wal
  unfolding new_action
  add_item wal txn items bytes doc offset = record {
    key_map = put doc.key items wal.key_map;
    size = add32 wal.size 1;
    num_flushable =
        if txn.txn_id == cfg.global_txn_id then add32 wal.num_flushable 1 else wal.num_flushable;
    datasize =
        if is_remove (new_action doc offset)
        then wal.datasize
        else add64 wal.datasize doc.size_ondisk;
    mem_overhead = add64 wal.mem_overhead bytes;
    next_id = wal.next_id + 1;
  }

  abbrev pub with_item : FdbTxn → ℕ → FdbTxn
  with_item txn id = record txn { items = txn.items ++ (id ∷ []) }

  -- The key has a header.
  unfoldable pub insert_into :
      FdbTxn
      → Wal
      → FdbDoc
      → ℕ
      → List WalItem
      → Option (WalItem × List WalItem)
      → Wal × FdbTxn × List Call
  unfolding overwrite overwrite_calls new_item new_calls add_item
  insert_into txn wal doc offset items (some (item, others)) =
      (overwrite wal item others doc offset, txn, overwrite_calls item doc offset)
  insert_into txn wal doc offset items none = (
    add_item wal txn (new_item txn wal.next_id false doc offset ∷ items) cfg.item_bytes doc offset,
    with_item txn wal.next_id,
    new_calls txn wal.next_id doc offset,
  )

  unfoldable pub insert_at :
      FdbTxn → Wal → FdbDoc → ℕ → Option (List WalItem) → Wal × FdbTxn × List Call
  unfolding insert_into take_item is_own
  insert_at txn wal doc offset (some items) =
      insert_into txn wal doc offset items (take_item (is_own txn) items)
  insert_at txn wal doc offset none = (
    add_item wal txn (new_item txn wal.next_id (is_phase1 caller) doc offset ∷ [])
        (cfg.item_bytes + cfg.header_bytes + length doc.key) doc offset,
    if is_phase1 caller then txn else with_item txn wal.next_id,
    new_calls txn wal.next_id doc offset,
  )

  -- `_wal_insert`
  unfoldable pub wal_insert : FdbTxn → Wal → FdbDoc → ℕ → Wal × FdbTxn × List Call
  unfolding insert_at
  wal_insert txn wal doc offset =
      let out = insert_at txn wal doc offset (lookup doc.key wal.key_map) in
      (out.0, out.1, fetch_snapshot kv_id ∷ out.2)
