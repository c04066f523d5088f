-- ===== src/Wal/Changes.antt =====
-- The items of a key after `_wal_insert`.
use forestdb.Common.{
  [], ℕ, Option, Bool, some, List, ◌≡◌, ◌∷◌, false, none, arith, refl, ap, true, ◌∙◌,
}
use forestdb.Wal.{WalItem, FdbTxn, Wal, lookup, put, items_of, same_key}
use forestdb.Wal.Insert.{
  FdbDoc, InsertBy, Config, is_phase1, take_item, is_own, overwritten, overwrite, new_item,
  add_item, insert_into, insert_at, wal_insert,
}
use forestdb.Wal.Order.{
  IsValid, put-IsValid, IsOrdered, AllCommitted, lookup-put_same, lookup-put_other, Taken,
  take_item-Taken,
}

module _ (cfg : Config) (caller : InsertBy) (immediate_remove : Bool) (snap_tag kv_id : ℕ)
    (txn : FdbTxn) (wal : Wal) (doc : FdbDoc) (offset : ℕ) where
  -- An item that is added.
  abbrev pub added : Bool → WalItem
  added committed =
      new_item cfg caller immediate_remove snap_tag kv_id txn wal.next_id committed doc offset

  abbrev pub changed : WalItem → WalItem
  changed item = overwritten cfg caller immediate_remove snap_tag kv_id item doc offset

  abbrev pub own : WalItem → Bool
  own = is_own cfg caller immediate_remove snap_tag kv_id txn

  abbrev pub items_into : List WalItem → Option (WalItem × List WalItem) → List WalItem
  items_into items none = added false ∷ items
  items_into items (some (item, others)) = changed item ∷ others

  -- The items of the key after an insertion.
  abbrev pub items_after : Option (List WalItem) → List WalItem
  items_after none = added (is_phase1 caller) ∷ []
  items_after (some items) = items_into items (take_item own items)

  abbrev pub after : Wal
  after = (wal_insert cfg caller immediate_remove snap_tag kv_id txn wal doc offset).0

  key_map-insert_into :
      (items : List WalItem) (o : Option (WalItem × List WalItem))
      → (insert_into cfg caller immediate_remove snap_tag kv_id txn wal doc offset items
          o).0.key_map
        ≡ put doc.key (items_into items o) wal.key_map
  unfolding insert_into overwrite add_item
  key_map-insert_into items none = refl
  key_map-insert_into items (some (item, others)) = refl

  key_map-insert_at :
      (o : Option (List WalItem))
      → (insert_at cfg caller immediate_remove snap_tag kv_id txn wal doc offset o).0.key_map
        ≡ put doc.key (items_after o) wal.key_map
  unfolding insert_at add_item
  key_map-insert_at none = refl
  key_map-insert_at (some items) = key_map-insert_into items (take_item own items)

  pub items_same :
      items_of (lookup doc.key after.key_map) ≡ items_after (lookup doc.key wal.key_map)
  unfolding wal_insert
  items_same =
      ap (λ m. items_of (lookup doc.key m)) (key_map-insert_at (lookup doc.key wal.key_map))
      ∙ ap items_of (lookup-put_same doc.key (items_after (lookup doc.key wal.key_map)) wal.key_map)

  pub items_other :
      (key : List ℕ)
      → same_key key doc.key ≡ false
      → items_of (lookup key after.key_map) ≡ items_of (lookup key wal.key_map)
  unfolding wal_insert
  items_other key e =
      ap (λ m. items_of (lookup key m)) (key_map-insert_at (lookup doc.key wal.key_map))
      ∙ ap items_of
          (lookup-put_other key doc.key (items_after (lookup doc.key wal.key_map)) wal.key_map e)

  pub own_uncommitted : (item : WalItem) → own item ≡ true → item.committed ≡ false
  unfolding is_own
  own_uncommitted item e = ground (arith, e)

  pub own_txn : (item : WalItem) → own item ≡ true → item.txn_id ≡ txn.txn_id
  unfolding is_own
  own_txn item e = ground (arith, e)

  -- The item of the transaction in front of others that are in order.
  front-IsOrdered :
      (item : WalItem) (items : List WalItem)
      → item.committed ≡ false
      → item.flushed_out ≡ false
      → IsOrdered items
      → IsOrdered (item ∷ items)
  unfolding IsOrdered
  front-IsOrdered item items c f ord =
      (λ e. absurd (ground (arith, c, e)), λ e. absurd (ground (arith, f, e)), ord)

  single-IsOrdered : (committed : Bool) → IsOrdered (added committed ∷ [])
  unfolding IsOrdered new_item AllCommitted
  single-IsOrdered committed = (λ e. tt, λ e. absurd (ground (arith, e)), tt)

  items_into-IsOrdered :
      (items : List WalItem) (o : Option (WalItem × List WalItem))
      → IsOrdered items
      → Taken own items o
      → IsOrdered (items_into items o)
  unfolding Taken overwritten new_item
  items_into-IsOrdered items none ord t = front-IsOrdered (added false) items refl refl ord
  items_into-IsOrdered items (some (item, others)) ord (e, f, left, same) =
      front-IsOrdered (changed item) others (own_uncommitted item e) f left

  pub items_after-IsOrdered :
      (o : Option (List WalItem)) → IsOrdered (items_of o) → IsOrdered (items_after o)
  items_after-IsOrdered none ord = single-IsOrdered (is_phase1 caller)
  items_after-IsOrdered (some items) ord =
      items_into-IsOrdered items (take_item own items) ord
        (take_item-Taken own own_uncommitted items ord)

  key_map-wal_insert :
      after.key_map ≡ put doc.key (items_after (lookup doc.key wal.key_map)) wal.key_map
  unfolding wal_insert
  key_map-wal_insert = key_map-insert_at (lookup doc.key wal.key_map)

-- `_wal_insert` keeps the items of every key in order: no uncommitted item stands behind a committed
-- one, and no uncommitted item is marked as flushed.
pub wal_insert-IsValid :
    (cfg : Config) (caller : InsertBy) (immediate_remove : Bool) (snap_tag kv_id : ℕ) (txn : FdbTxn)
    (wal : Wal) (doc : FdbDoc) (offset : ℕ)
    → IsValid wal
    → IsValid (wal_insert cfg caller immediate_remove snap_tag kv_id txn wal doc offset).0
unfolding IsValid
wal_insert-IsValid cfg caller immediate_remove snap_tag kv_id txn wal doc offset valid =
    put-IsValid wal (after cfg caller immediate_remove snap_tag kv_id txn wal doc offset) doc.key
      (items_after cfg caller immediate_remove snap_tag kv_id txn wal doc offset
        (lookup doc.key wal.key_map))
      (key_map-wal_insert cfg caller immediate_remove snap_tag kv_id txn wal doc offset)
      (items_after-IsOrdered cfg caller immediate_remove snap_tag kv_id txn wal doc offset
        (lookup doc.key wal.key_map) (valid doc.key))
      valid
