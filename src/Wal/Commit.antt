-- ===== src/Wal/Commit.antt =====
-- `wal_commit` of src/wal.cc: the items of a transaction become committed, and older committed items
-- of the same key go if no snapshot needs them.
pub mod Publish
pub mod Reverse
pub mod Lookup
use forestdb.Common.{
  [], ℕ, List, Option, Bool, ◌∷◌, false, some, none, not, true, if◌then◌else◌, ◌==◌, ◌+◌, ◌++◌,
  ◌||◌, ◌%◌, ◌^◌, ◌&&◌, ◌-◌, ltb, sub64,
}
use forestdb.Wal.{
  WalItem, FdbTxn, Wal, KeyMap, lookup, put, is_insert, is_remove, items_of, reverse_onto,
}
use forestdb.Wal.Insert.{
  Config, Call, seq_remove, mark_stale, update_stat, new_del, new_set, drop_delete, drop_set,
  commit_mark, take_item,
}

-- `struct snap_handle`; the handles are ordered by store and tag.
pub record SnapHandle : Type 0 where
  pub kv_id : ℕ
  pub snap_tag_idx : ℕ
  pub snap_stop_idx : ℕ
  pub ref_cnt_kvs : ℕ

abbrev pub is_immutable : SnapHandle → Bool
is_immutable s = not (s.ref_cnt_kvs == 0)

-- No snapshot behind that of the item needs it, up to the covering item.
unfoldable pub later_allow : ℕ → ℕ → ℕ → List SnapHandle → Bool
later_allow kv_id tag cover_tag [] = true
later_allow kv_id tag cover_tag (s ∷ ss) =
    let rest = later_allow kv_id tag cover_tag ss in
    if not (s.kv_id == kv_id) || (ltb tag s.snap_stop_idx || (s.snap_tag_idx == cover_tag))
    then true
    else if is_immutable s
    then false
    else rest

-- `_wal_can_discard`, with a covering item.
unfoldable pub wal_can_discard : ℕ → ℕ → ℕ → List SnapHandle → Bool
unfolding later_allow
wal_can_discard kv_id tag cover_tag [] = true
wal_can_discard kv_id tag cover_tag (s ∷ ss) =
    let rest = wal_can_discard kv_id tag cover_tag ss in
    if (s.kv_id == kv_id) && (s.snap_tag_idx == tag)
    then not (is_immutable s) && later_allow kv_id tag cover_tag ss
    else rest

-- The key under whose header an item stands.
abbrev pub has_id : ℕ → List WalItem → Bool
has_id id [] = false
has_id id (item ∷ items) = (item.id == id) || has_id id items

unfoldable pub key_of : ℕ → KeyMap → Option (List ℕ)
key_of id [] = none
key_of id ((key, items) ∷ headers) =
    let rest = key_of id headers in if has_id id items then some key else rest

module _ (cfg : Config) (snapshots : List SnapHandle) (mark : Option (ℕ → Bool))
    (kv_of : List ℕ → ℕ) where
  -- The reverse scan over the committed items in front of the new one: what stays, and what goes
  -- with the action of the item that covers it.
  unfoldable pub dedup : ℕ → WalItem → List WalItem → List WalItem × List (WalItem × WalItem)
  unfolding wal_can_discard
  dedup kv_id cover [] = ([], [])
  dedup kv_id cover (item ∷ items) =
      let skip = dedup kv_id item items in
      let on = dedup kv_id cover items in
      if not item.committed
      then (item ∷ items, [])
      else if not (
          (cover.snap_tag == item.snap_tag)
          || wal_can_discard kv_id item.snap_tag cover.snap_tag snapshots)
      then (item ∷ skip.0, skip.1)
      else if item.flush_ready
      then (item ∷ on.0, on.1)
      else (on.0, (item, cover) ∷ on.1)

  -- What goes is counted off. The size of its document is, if the item that covers it is not a removal.
  unfoldable pub drop_items : Wal → List (WalItem × WalItem) → Wal
  drop_items wal [] = wal
  drop_items wal ((item, cover) ∷ dropped) =
      drop_items
        (record wal {
          size = (wal.size + 2 ^ 32 - 1) % 2 ^ 32;
          num_flushable = (wal.num_flushable + 2 ^ 32 - 1) % 2 ^ 32;
          datasize =
              if is_remove cover.action then wal.datasize else sub64 wal.datasize item.doc_size;
          mem_overhead = sub64 wal.mem_overhead cfg.item_bytes;
        })
        dropped

  unfoldable pub dropped_calls : ℕ → List (WalItem × WalItem) → List Call
  dropped_calls kv_id [] = []
  dropped_calls kv_id ((item, cover) ∷ dropped) =
      (if cfg.seqtree_use then seq_remove item.seqnum item.id ∷ [] else [])
      ++ ((if is_remove item.action then [] else mark_stale item.offset item.doc_size ∷ [])
          ++ (update_stat kv_id (if is_insert item.action then drop_set else drop_delete)
              ∷ dropped_calls kv_id dropped))

  abbrev pub mark_succeeds : WalItem → Bool
  mark_succeeds item = marked mark
    where
      marked : Option (ℕ → Bool) → Bool
      marked none = true
      marked (some f) = f item.offset

  abbrev pub mark_calls : WalItem → List Call
  mark_calls item = calls mark
    where
      calls : Option (ℕ → Bool) → List Call
      calls none = []
      calls (some f) = commit_mark item.offset ∷ []

  -- The item is committed where it stands.
  unfoldable pub flag_item : ℕ → List WalItem → List WalItem
  flag_item id [] = []
  flag_item id (item ∷ items) =
      (if item.id == id then record item { committed = true } else item) ∷ flag_item id items

  -- The items of the key when the item has been moved to the end.
  unfoldable pub commit_items : ℕ → WalItem → List WalItem → List WalItem × List (WalItem × WalItem)
  unfolding dedup
  commit_items kv_id item others =
      let item' = record item { committed = true } in
      let out = dedup kv_id item' (reverse_onto others []) in
      (reverse_onto out.0 (item' ∷ []), out.1)

  -- A transactional item becomes flushable.
  unfoldable pub count_item : Wal → WalItem → Wal
  count_item wal item =
      if item.txn_id == cfg.global_txn_id
      then wal
      else record wal { num_flushable = (wal.num_flushable + 1) % 2 ^ 32 }

  unfoldable pub commit_item :
      Wal → List ℕ → List WalItem → Option (WalItem × List WalItem) → Bool × Wal × List Call
  unfolding drop_items dropped_calls flag_item commit_items count_item
  commit_item wal key items none = (true, wal, [])
  commit_item wal key items (some (item, others)) =
      let counted = count_item wal item in
      let stat =
        if item.txn_id == cfg.global_txn_id
        then []
        else update_stat (kv_of key) (if is_insert item.action then new_set else new_del) ∷ [] in
      let out = commit_items (kv_of key) item others in
      if item.committed
      then (true, wal, [])
      else if mark_succeeds item
      then (
        true,
        drop_items (record counted { key_map = put key out.0 wal.key_map }) out.1,
        stat ++ (mark_calls item ++ dropped_calls (kv_of key) out.1),
      )
      else (
        false,
        record counted { key_map = put key (flag_item item.id items) wal.key_map },
        stat ++ mark_calls item,
      )

  unfoldable pub commit_at : Wal → ℕ → Option (List ℕ) → Bool × Wal × List Call
  unfolding commit_item take_item
  commit_at wal id none = (true, wal, [])
  commit_at wal id (some key) =
      let items = items_of (lookup key wal.key_map) in
      commit_item wal key items (take_item (λ i. i.id == id) items)

  -- The loop over the items of the transaction: those that are left if a commit mark fails.
  unfoldable pub commit_loop : List ℕ → Wal → Bool × List ℕ × Wal × List Call
  unfolding commit_at key_of
  commit_loop [] wal = (true, [], wal, [])
  commit_loop (id ∷ ids) wal =
      let one = commit_at wal id (key_of id wal.key_map) in
      let rest = commit_loop ids one.1 in
      if one.0 then (rest.0, rest.1, rest.2, one.2 ++ rest.3) else (false, id ∷ ids, one.1, one.2)

  -- `wal_commit`
  unfoldable pub wal_commit : FdbTxn → Wal → Bool × FdbTxn × Wal × List Call
  unfolding commit_loop
  wal_commit txn wal =
      let out = commit_loop txn.items wal in (out.0, record txn { items = out.1 }, out.2, out.3)
