-- ===== src/Wal/Snapshot.antt =====
-- `_wal_get_snap_item` of src/wal.cc: what a snapshot finds in the items of a key.
use forestdb.Common.{
  [], ℕ, Option, Bool, List, false, ◌≡◌, none, ◌<◌, ◌∷◌, some, ◌&&◌, true, ◌∙◌, ltb, if◌then◌else◌,
  ap₂, Bool-cases, ◌==◌, not, inl, arith, ◌||◌, subst, sym, leb, inr, refl, ap,
}
use forestdb.Wal.{WalItem, FdbTxn, Wal, Found, lookup, found_of, items_of, same_key}
use forestdb.Wal.Insert.{
  FdbDoc, InsertBy, Config, take_item, keep_item, is_own, overwritten, new_item, wal_insert,
}
use forestdb.Wal.Order.{same_key_eq}
use forestdb.Wal.Changes.{own, items_into, items_after, items_same, items_other}

-- `struct snap_handle`, as far as lookups use it; `active_txns` are the ids of its list of active
-- transactions.
pub record Snapshot : Type 0 where
  pub txn_id : ℕ
  pub global_txn_id : ℕ
  pub snap_tag_idx : ℕ
  pub snap_stop_idx : ℕ
  pub active_txns : List ℕ

abbrev pub is_active : ℕ → List ℕ → Bool
is_active id [] = false
is_active id (t ∷ ts) = (t == id) || is_active id ts

-- `_wal_item_partially_committed`
unfoldable pub wal_item_partially_committed : Snapshot → WalItem → Bool
wal_item_partially_committed s item =
    item.committed
    && (not (item.txn_id == s.global_txn_id)
        && (not (item.txn_id == s.txn_id) && is_active item.txn_id s.active_txns))

-- The item with the larger tag, the earlier one of two with the same.
abbrev pub larger : Option WalItem → WalItem → WalItem
larger none item = item
larger (some best) item = if ltb best.snap_tag item.snap_tag then item else best

-- Items of other transactions that are not committed, items of later snapshots, and items of
-- transactions that were ending when the snapshot was taken.
unfoldable pub is_hidden : Snapshot → WalItem → Bool
unfolding wal_item_partially_committed
is_hidden s item =
    (not (item.txn_id == s.txn_id) && not item.committed)
    || (ltb s.snap_tag_idx item.snap_tag || wal_item_partially_committed s item)

-- The loop over the items.
unfoldable pub snap_loop : Snapshot → Option WalItem → List WalItem → Option WalItem
unfolding is_hidden
snap_loop s best [] = best
snap_loop s best (item ∷ items) =
    let skip = snap_loop s best items in
    let take = snap_loop s (some (larger best item)) items in
    if is_hidden s item
    then skip
    else if item.snap_tag == s.snap_tag_idx
    then some item
    else if leb item.snap_tag s.snap_stop_idx
    then skip
    else take

-- `_wal_find` by key with a snapshot.
unfoldable pub wal_snap_find : Snapshot → Wal → List ℕ → Option Found
unfolding snap_loop
wal_snap_find s wal key = found_of (snap_loop s none (items_of (lookup key wal.key_map)))

snap_loop-later :
    (s : Snapshot) (best : Option WalItem) (item : WalItem) (items : List WalItem)
    → s.snap_tag_idx < item.snap_tag
    → snap_loop s best (item ∷ items) ≡ snap_loop s best items
unfolding snap_loop
snap_loop-later s best item items h =
    let hidden : is_hidden s item ≡ true = unfold is_hidden in ground (arith, h) in rw hidden refl

-- Two lists of which the tails look the same to a snapshot.
snap_loop-cons :
    (s : Snapshot) (item : WalItem) (a b : List WalItem)
    → ((best : Option WalItem) → snap_loop s best a ≡ snap_loop s best b)
    → (best : Option WalItem) → snap_loop s best (item ∷ a) ≡ snap_loop s best (item ∷ b)
unfolding snap_loop
snap_loop-cons s item a b e best =
    ap₂
      (λ skip take.
        if is_hidden s item
        then skip
        else if item.snap_tag == s.snap_tag_idx
        then some item
        else if leb item.snap_tag s.snap_stop_idx
        then skip
        else take)
      (e best) (e (some (larger best item)))

-- An item that is taken out is later than the snapshot.
unfoldable Unseen : Snapshot → List WalItem → Option (WalItem × List WalItem) → Type 0
Unseen s items none = Unit
Unseen s items (some (item, others)) =
    (best : Option WalItem) → snap_loop s best others ≡ snap_loop s best items

keep_item-Unseen :
    (s : Snapshot) (item : WalItem) (items : List WalItem) (o : Option (WalItem × List WalItem))
    → Unseen s items o
    → Unseen s (item ∷ items) (keep_item item o)
unfolding Unseen
keep_item-Unseen s item items none u = tt
keep_item-Unseen s item items (some (i, is)) u = snap_loop-cons s item is items u

take_item-Unseen :
    (s : Snapshot) (p : WalItem → Bool) (items : List WalItem)
    → ((i : WalItem) → p i ≡ true → s.snap_tag_idx < i.snap_tag)
    → Unseen s items (take_item p items)
unfolding take_item
take_item-Unseen s p [] h = unfold Unseen in tt
take_item-Unseen s p (item ∷ items) h = elim (Bool-cases (p item)) [
  | inl t ↦ rw t (unfold Unseen in λ best. sym (snap_loop-later s best item items (h item t)))
  | inr f ↦ rw f (keep_item-Unseen s item items (take_item p items) (take_item-Unseen s p items h))
]

module _ (cfg : Config) (caller : InsertBy) (immediate_remove : Bool) (snap_tag kv_id : ℕ)
    (txn : FdbTxn) (wal : Wal) (doc : FdbDoc) (offset : ℕ) (s : Snapshot)
    (later : s.snap_tag_idx < snap_tag) where
  snap_into :
      (items : List WalItem) (o : Option (WalItem × List WalItem))
      → Unseen s items o
      → snap_loop s none
          (items_into cfg caller immediate_remove snap_tag kv_id txn wal doc offset items o)
        ≡ snap_loop s none items
  unfolding Unseen overwritten new_item
  snap_into items none u = snap_loop-later s none _ items later
  snap_into items (some (item, others)) u = snap_loop-later s none _ others later ∙ u none

  own_later :
      (i : WalItem)
      → own cfg caller immediate_remove snap_tag kv_id txn wal doc offset i ≡ true
      → s.snap_tag_idx < i.snap_tag
  unfolding is_own
  own_later i e = ground (arith, e, later)

  snap_after :
      (o : Option (List WalItem))
      → snap_loop s none
          (items_after cfg caller immediate_remove snap_tag kv_id txn wal doc offset o)
        ≡ snap_loop s none (items_of o)
  unfolding new_item
  snap_after none = snap_loop-later s none _ [] later
  snap_after (some items) = snap_into items _ (
      take_item-Unseen s (own cfg caller immediate_remove snap_tag kv_id txn wal doc offset) items
        own_later)

-- What a snapshot finds by key stays as it is when `_wal_insert` puts a document into the log under a
-- later tag, whatever the key, the transaction and the caller, and also if the document overwrites an
-- item of the log.
pub wal_snap_find-wal_insert :
    (cfg : Config) (caller : InsertBy) (immediate_remove : Bool) (snap_tag kv_id : ℕ) (txn : FdbTxn)
    (wal : Wal) (doc : FdbDoc) (offset : ℕ) (s : Snapshot) (key : List ℕ)
    → s.snap_tag_idx < snap_tag
    → wal_snap_find s
        (wal_insert cfg caller immediate_remove snap_tag kv_id txn wal doc offset).0
        key
      ≡ wal_snap_find s wal key
unfolding wal_snap_find
wal_snap_find-wal_insert cfg caller immediate_remove snap_tag kv_id txn wal doc offset s key later =
    elim (Bool-cases (same_key key doc.key)) [
      | inl t ↦
          subst
            (λ k.
              found_of (
                snap_loop s none (
                  items_of (
                    lookup k
                      (wal_insert cfg caller immediate_remove snap_tag kv_id txn wal doc
                        offset).0.key_map)))
              ≡ found_of (snap_loop s none (items_of (lookup k wal.key_map))))
            (sym (same_key_eq key doc.key t))
            (ap found_of (
              ap (snap_loop s none)
                (items_same cfg caller immediate_remove snap_tag kv_id txn wal doc offset)
              ∙ snap_after cfg caller immediate_remove snap_tag kv_id txn wal doc offset s later
                  (lookup doc.key wal.key_map)))
      | inr f ↦
          ap (λ l. found_of (snap_loop s none l))
            (items_other cfg caller immediate_remove snap_tag kv_id txn wal doc offset key f)
    ]
