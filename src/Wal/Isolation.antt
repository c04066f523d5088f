-- ===== src/Wal/Isolation.antt =====
-- Who sees what `_wal_insert` has put into the write-ahead log.
use forestdb.Common.{
  [], ℕ, ◌≢◌, Option, Bool, some, List, ◌≡◌, false, none, if◌then◌else◌, ap, Bool-cases, ◌∙◌, refl,
  true, arith, inl, ◌&&◌, ◌||◌, inr, subst, ◌==◌, sym, blk_not_found, not,
}
use forestdb.Wal.{
  WalAction, act_insert, act_logical_remove, act_remove, is_insert, is_remove, WalItem, FdbTxn,
  read_committed, is_read_uncommitted, Wal, Found, lookup, visible, find_items, found, items_of,
  found_of, wal_find, same_key,
}
use forestdb.Wal.Insert.{
  FdbDoc, InsertBy, Config, is_phase1, take_item, new_action, overwritten, new_item, wal_insert,
}
use forestdb.Wal.Order.{
  IsOrdered, IsValid, same_key_eq, find_items-skip, find_items-first, find_items-single, Taken,
  take_item-Taken,
}
use forestdb.Wal.Changes.{
  added, own, items_into, items_after, items_same, items_other, own_uncommitted, own_txn,
}

-- What a reader finds in an item.
abbrev pub answer : WalItem → Option Found
answer item = some (found item)

module _ (cfg : Config) (caller : InsertBy) (immediate_remove : Bool) (snap_tag kv_id : ℕ)
    (txn : FdbTxn) (wal : Wal) (doc : FdbDoc) (offset : ℕ) where
  abbrev changes_added : Bool → WalItem
  changes_added = added cfg caller immediate_remove snap_tag kv_id txn wal doc offset

  visible-own :
      (u : FdbTxn) (item : WalItem)
      → u.txn_id ≡ txn.txn_id
      → item.txn_id ≡ txn.txn_id
      → visible u item ≡ true
  unfolding visible
  visible-own u item e h = ground (arith, e, h)

  visible-other :
      (u : FdbTxn) (item : WalItem)
      → u.isolation ≡ read_committed
      → u.txn_id ≢ txn.txn_id
      → item.txn_id ≡ txn.txn_id
      → visible u item ≡ false
  unfolding visible
  visible-other u item r e h =
      let no : is_read_uncommitted u.isolation ≡ false = ap is_read_uncommitted r in
      ground (arith, no, e, h)

  -- What the transaction itself finds.
  own_into :
      (u : FdbTxn)
      → u.txn_id ≡ txn.txn_id
      → (items : List WalItem) (o : Option (WalItem × List WalItem))
      → Taken (own cfg caller immediate_remove snap_tag kv_id txn wal doc offset) items o
      → found_of (
          find_items u
            (items_into cfg caller immediate_remove snap_tag kv_id txn wal doc offset items o))
        ≡ answer (changes_added false)
  unfolding Taken overwritten new_item found
  own_into u e items none t = ap found_of (
      find_items-first u (changes_added false) items refl refl
        (visible-own u (changes_added false) e refl))
  own_into u e items (some (item, others)) (p, f, left, same) =
      let c =
        own_uncommitted cfg caller immediate_remove snap_tag kv_id txn wal doc offset item p in
      let h = own_txn cfg caller immediate_remove snap_tag kv_id txn wal doc offset item p in
      let item' = overwritten cfg caller immediate_remove snap_tag kv_id item doc offset in
      ap found_of (find_items-first u item' others c f (visible-own u item' e h))

  own_after :
      (u : FdbTxn)
      → u.txn_id ≡ txn.txn_id
      → (o : Option (List WalItem)) → IsOrdered (items_of o)
      → found_of (
          find_items u
            (items_after cfg caller immediate_remove snap_tag kv_id txn wal doc offset o))
        ≡ answer (changes_added false)
  unfolding new_item found
  own_after u e none ord = elim (Bool-cases (is_phase1 caller)) [
    | inl t ↦ rw t (ap found_of (find_items-single u (changes_added true) refl refl))
    | inr f ↦ rw f (
        ap found_of (
          find_items-first u (changes_added false) [] refl refl
            (visible-own u (changes_added false) e refl)))
  ]
  own_after u e (some items) ord =
      own_into u e items
        (take_item (own cfg caller immediate_remove snap_tag kv_id txn wal doc offset) items)
        (take_item-Taken (own cfg caller immediate_remove snap_tag kv_id txn wal doc offset)
          (own_uncommitted cfg caller immediate_remove snap_tag kv_id txn wal doc offset) items ord)

  -- What other transactions find.
  other_into :
      (u : FdbTxn)
      → u.isolation ≡ read_committed
      → u.txn_id ≢ txn.txn_id
      → (items : List WalItem) (o : Option (WalItem × List WalItem))
      → Taken (own cfg caller immediate_remove snap_tag kv_id txn wal doc offset) items o
      → find_items u
          (items_into cfg caller immediate_remove snap_tag kv_id txn wal doc offset items o)
        ≡ find_items u items
  unfolding Taken overwritten new_item
  other_into u r e items none t =
      find_items-skip u (changes_added false) items refl refl
        (visible-other u (changes_added false) r e refl)
  other_into u r e items (some (item, others)) (p, f, left, same) =
      let c =
        own_uncommitted cfg caller immediate_remove snap_tag kv_id txn wal doc offset item p in
      let h = own_txn cfg caller immediate_remove snap_tag kv_id txn wal doc offset item p in
      let item' = overwritten cfg caller immediate_remove snap_tag kv_id item doc offset in
      find_items-skip u item' others c f (visible-other u item' r e h)
      ∙ same u (visible-other u item r e h)

  other_after :
      (u : FdbTxn)
      → u.isolation ≡ read_committed
      → u.txn_id ≢ txn.txn_id
      → is_phase1 caller ≡ false
      → (o : Option (List WalItem)) → IsOrdered (items_of o)
      → find_items u (items_after cfg caller immediate_remove snap_tag kv_id txn wal doc offset o)
        ≡ find_items u (items_of o)
  unfolding new_item
  other_after u r e f none ord = rw f (
      find_items-skip u (changes_added false) [] refl refl
        (visible-other u (changes_added false) r e refl))
  other_after u r e f (some items) ord =
      other_into u r e items
        (take_item (own cfg caller immediate_remove snap_tag kv_id txn wal doc offset) items)
        (take_item-Taken (own cfg caller immediate_remove snap_tag kv_id txn wal doc offset)
          (own_uncommitted cfg caller immediate_remove snap_tag kv_id txn wal doc offset) items ord)

abbrev action_of : Bool → Bool → Bool → WalAction
action_of deleted immediate no_offset =
    if deleted
    then if not no_offset && not immediate then act_logical_remove else act_remove
    else act_insert

abbrev found_at : ℕ → Bool → ℕ → Option Found
found_at offset deleted seqnum =
    some (record { offset = offset; deleted = deleted; seqnum = seqnum })

answer_of_action :
    (deleted immediate no_offset : Bool) (offset seqnum : ℕ)
    → found_at
        (if is_remove (action_of deleted immediate no_offset) then blk_not_found else offset)
        (not (is_insert (action_of deleted immediate no_offset)))
        seqnum
      ≡ found_at
          (if deleted && (immediate || no_offset) then blk_not_found else offset)
          deleted
          seqnum
answer_of_action false immediate no_offset offset seqnum = refl
answer_of_action true true true offset seqnum = refl
answer_of_action true true false offset seqnum = refl
answer_of_action true false true offset seqnum = refl
answer_of_action true false false offset seqnum = refl

-- A transaction finds what it has just put into the write-ahead log with `_wal_insert`, by key and
-- whatever its isolation: the offset, none if the document was dropped right away, the sequence number
-- and whether it is deleted.
pub wal_find-wal_insert :
    (cfg : Config) (caller : InsertBy) (immediate_remove : Bool) (snap_tag kv_id : ℕ)
    (txn u : FdbTxn) (wal : Wal) (doc : FdbDoc) (offset : ℕ)
    → IsValid wal
    → u.txn_id ≡ txn.txn_id
    → wal_find u
        (wal_insert cfg caller immediate_remove snap_tag kv_id txn wal doc offset).0
        doc.key
      ≡ some (record {
        offset =
            if doc.deleted && (immediate_remove || (offset == blk_not_found))
            then blk_not_found
            else offset;
        deleted = doc.deleted;
        seqnum = doc.seqnum;
      })
unfolding wal_find IsValid new_item found
wal_find-wal_insert cfg caller immediate_remove snap_tag kv_id txn u wal doc offset valid e =
    ap (λ l. found_of (find_items u l))
      (items_same cfg caller immediate_remove snap_tag kv_id txn wal doc offset)
    ∙ own_after cfg caller immediate_remove snap_tag kv_id txn wal doc offset u e
        (lookup doc.key wal.key_map) (valid doc.key)
    ∙ unfold new_action in
      answer_of_action doc.deleted immediate_remove (offset == blk_not_found) offset doc.seqnum

-- What a transaction puts into the write-ahead log with `_wal_insert` changes no lookup by key of
-- another transaction that reads what is committed, whatever the key; insertions by the first phase of
-- the compactor, which are committed at once, are left out.
pub wal_insert-isolates :
    (cfg : Config) (caller : InsertBy) (immediate_remove : Bool) (snap_tag kv_id : ℕ)
    (txn u : FdbTxn) (wal : Wal) (doc : FdbDoc) (offset : ℕ) (key : List ℕ)
    → IsValid wal
    → is_phase1 caller ≡ false
    → u.isolation ≡ read_committed
    → u.txn_id ≢ txn.txn_id
    → wal_find u (wal_insert cfg caller immediate_remove snap_tag kv_id txn wal doc offset).0 key
      ≡ wal_find u wal key
unfolding wal_find IsValid
wal_insert-isolates cfg caller immediate_remove snap_tag kv_id txn u wal doc offset key valid f r
      e =
    elim (Bool-cases (same_key key doc.key)) [
      | inl t ↦
          subst
            (λ k.
              found_of (
                find_items u (
                  items_of (
                    lookup k
                      (wal_insert cfg caller immediate_remove snap_tag kv_id txn wal doc
                        offset).0.key_map)))
              ≡ found_of (find_items u (items_of (lookup k wal.key_map))))
            (sym (same_key_eq key doc.key t))
            (ap found_of (
              ap (find_items u)
                (items_same cfg caller immediate_remove snap_tag kv_id txn wal doc offset)
              ∙ other_after cfg caller immediate_remove snap_tag kv_id txn wal doc offset u r e f
                  (lookup doc.key wal.key_map) (valid doc.key)))
      | inr n ↦
          ap (λ l. found_of (find_items u l))
            (items_other cfg caller immediate_remove snap_tag kv_id txn wal doc offset key n)
    ]
