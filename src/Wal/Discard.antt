-- ===== src/Wal/Discard.antt =====
-- `wal_discard` of src/wal.cc: the items of a transaction that is aborted leave the log.
pub mod Others
pub mod Isolation
use forestdb.Common.{
  [], ℕ, List, Option, ◌∷◌, if◌then◌else◌, some, Bool, ◌++◌, true, ◌+◌, ◌==◌, none, false, ◌^◌, ◌-◌,
  ◌%◌, ◌||◌, sub64, length,
}
use forestdb.Wal.{WalItem, FdbTxn, Wal, KeyMap, lookup, put, is_remove, items_of, same_key}
use forestdb.Wal.Insert.{Config, Call, seq_remove, mark_stale, take_item}
use forestdb.Wal.Commit.{key_of}

-- `avl_remove` of the header of a key.
unfoldable pub remove : List ℕ → KeyMap → KeyMap
unfolding same_key
remove key [] = []
remove key ((key', items) ∷ headers) =
    let rest = remove key headers in if same_key key key' then rest else (key', items) ∷ rest

abbrev pub is_empty : List WalItem → Bool
is_empty [] = true
is_empty (item ∷ items) = false

module _ (cfg : Config) where
  -- The header goes with its last item.
  unfoldable pub put_or_remove : List ℕ → List WalItem → KeyMap → KeyMap
  unfolding remove
  put_or_remove key others m = if is_empty others then remove key m else put key others m

  -- One item of the transaction.
  unfoldable pub discard_item : Wal → List ℕ → Option (WalItem × List WalItem) → Wal × List Call
  unfolding put_or_remove
  discard_item wal key none = (wal, [])
  discard_item wal key (some (item, others)) = (
    record {
      key_map = put_or_remove key others wal.key_map;
      size = (wal.size + 2 ^ 32 - 1) % 2 ^ 32;
      num_flushable =
          if (item.txn_id == cfg.global_txn_id) || item.committed
          then (wal.num_flushable + 2 ^ 32 - 1) % 2 ^ 32
          else wal.num_flushable;
      datasize = if is_remove item.action then wal.datasize else sub64 wal.datasize item.doc_size;
      mem_overhead =
          sub64 wal.mem_overhead
            (cfg.item_bytes + (if is_empty others then cfg.header_bytes + length key else 0));
      next_id = wal.next_id;
    },
    (if cfg.seqtree_use then seq_remove item.seqnum item.id ∷ [] else [])
        ++ (if is_remove item.action then [] else mark_stale item.offset item.doc_size ∷ []),
  )

  unfoldable pub discard_at : Wal → ℕ → Option (List ℕ) → Wal × List Call
  unfolding discard_item take_item
  discard_at wal id none = (wal, [])
  discard_at wal id (some key) =
      discard_item wal key (take_item (λ i. i.id == id) (items_of (lookup key wal.key_map)))

  -- The loop over the items of the transaction.
  unfoldable pub discard_loop : List ℕ → Wal → Wal × List Call
  unfolding discard_at key_of
  discard_loop [] wal = (wal, [])
  discard_loop (id ∷ ids) wal =
      let one = discard_at wal id (key_of id wal.key_map) in
      let rest = discard_loop ids one.0 in (rest.0, one.1 ++ rest.1)

  -- `wal_discard`
  unfoldable pub wal_discard : FdbTxn → Wal → FdbTxn × Wal × List Call
  unfolding discard_loop
  wal_discard txn wal =
      let out = discard_loop txn.items wal in (record txn { items = [] }, out.0, out.1)
