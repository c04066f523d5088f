-- ===== src/Wal/Discard/Isolation.antt =====
-- `wal_discard` shows nothing to other transactions.
use forestdb.Common.{
  [], ℕ, ◌≢◌, List, ◌≡◌, false, some, Option, ◌∷◌, true, ◌==◌, arith, ap, Bool-cases, inl, inr,
  none, refl, subst, ◌∙◌, sym,
}
use forestdb.Wal.{
  WalItem, FdbTxn, read_committed, is_read_uncommitted, Wal, lookup, visible, find_items, found_of,
  items_of, wal_find, same_key,
}
use forestdb.Wal.Insert.{Config, take_item}
use forestdb.Wal.Order.{IsOrdered, IsValid, same_key_eq}
use forestdb.Wal.Commit.{key_of}
use forestdb.Wal.Commit.Lookup.{Rest, take_item-Rest}
use forestdb.Wal.Snapshot.{is_active}
use forestdb.Wal.Discard.{discard_item, discard_at, discard_loop, wal_discard}
use forestdb.Wal.Discard.Others.{
  AllItems, AllItems-map, TakenAll, take_item-TakenAll, Missing, take_item-Missing,
  items_after_same, items_after_other,
}

-- An item of the list of a transaction is its own, and not committed.
abbrev pub IsOwn : ℕ → List ℕ → WalItem → Type 0
IsOwn t ids i = is_active i.id ids ≡ true → (i.committed ≡ false) × (i.txn_id ≡ t)

abbrev pub Owns : FdbTxn → Wal → Type 0
Owns txn wal =
    (key : List ℕ) → AllItems (IsOwn txn.txn_id txn.items) (items_of (lookup key wal.key_map))

-- What other transactions find is the same.
abbrev SameFor : ℕ → List WalItem → List WalItem → Type 0
SameFor t new old =
    (u : FdbTxn) → u.isolation ≡ read_committed → u.txn_id ≢ t → find_items u new ≡ find_items u old

-- One step, which takes out at most the item `id`.
abbrev Step : ℕ → ℕ → List ℕ → List WalItem → List WalItem → Type 0
Step t id ids new old =
    IsOrdered old
    → AllItems (IsOwn t (id ∷ ids)) old
    → IsOrdered new × AllItems (IsOwn t ids) new × SameFor t new old

invisible :
    (u : FdbTxn) (item : WalItem) (t : ℕ)
    → u.isolation ≡ read_committed
    → u.txn_id ≢ t
    → item.txn_id ≡ t
    → visible u item ≡ false
unfolding visible
invisible u item t r e h =
    let no : is_read_uncommitted u.isolation ≡ false = ap is_read_uncommitted r in
    ground (arith, no, e, h)

IsOwn-tail : (t id : ℕ) (ids : List ℕ) (i : WalItem) → IsOwn t (id ∷ ids) i → IsOwn t ids i
IsOwn-tail t id ids i h e = h (ground (arith, e))

taken_step :
    (t id : ℕ) (ids : List ℕ) (items : List WalItem) (item : WalItem) (others : List WalItem)
    → Rest (some (item, others))
    → TakenAll (IsOwn t (id ∷ ids)) (λ i. i.id == id) (some (item, others))
    → ((u : FdbTxn) → Missing u items (some (item, others)))
    → IsOrdered others × AllItems (IsOwn t ids) others × SameFor t others items
unfolding TakenAll Missing
taken_step t id ids items item others (fl, o) (e, q, all) m =
    let (c, own) = q (ground (arith, e)) in
    (
      o,
      AllItems-map (IsOwn t (id ∷ ids)) (IsOwn t ids) others (IsOwn-tail t id ids) all,
      λ u r n. m u c (invisible u item t r n own),
    )

unchanged-Step : (t id : ℕ) (ids : List ℕ) (items : List WalItem) → Step t id ids items items
unchanged-Step t id ids items ord own = (
  ord,
  AllItems-map (IsOwn t (id ∷ ids)) (IsOwn t ids) items (IsOwn-tail t id ids) own,
  λ u r n. refl,
)

take-Step :
    (t id : ℕ) (ids : List ℕ) (items : List WalItem) (item : WalItem) (others : List WalItem)
    → take_item (λ i. i.id == id) items ≡ some (item, others)
    → Step t id ids others items
take-Step t id ids items item others taken ord own =
    taken_step t id ids items item others
      (subst Rest taken (take_item-Rest (λ i. i.id == id) items ord))
      (subst (TakenAll (IsOwn t (id ∷ ids)) (λ i. i.id == id)) taken
        (take_item-TakenAll (IsOwn t (id ∷ ids)) (λ i. i.id == id) items own))
      (λ u. subst (Missing u items) taken (take_item-Missing u (λ i. i.id == id) items ord))

module _ (cfg : Config) where
  discard_item-Step :
      (t id : ℕ) (ids : List ℕ) (wal : Wal) (key0 : List ℕ) (o : Option (WalItem × List WalItem))
      → take_item (λ i. i.id == id) (items_of (lookup key0 wal.key_map)) ≡ o
      → (key : List ℕ)
      → Step t id ids
          (items_of (lookup key (discard_item cfg wal key0 o).0.key_map))
          (items_of (lookup key wal.key_map))
  unfolding discard_item
  discard_item-Step t id ids wal key0 none taken key = unchanged-Step t id ids _
  discard_item-Step t id ids wal key0 (some (item, others)) taken key =
      elim (Bool-cases (same_key key key0)) [
        | inl s ↦
            subst
              (λ k.
                Step t id ids
                  (items_of (lookup k (discard_item cfg wal key0 (some (item, others))).0.key_map))
                  (items_of (lookup k wal.key_map)))
              (sym (same_key_eq key key0 s))
              (subst (λ l. Step t id ids l (items_of (lookup key0 wal.key_map)))
                (sym (items_after_same cfg key0 others wal.key_map))
                (take-Step t id ids (items_of (lookup key0 wal.key_map)) item others taken))
        | inr s ↦
            subst (λ l. Step t id ids l (items_of (lookup key wal.key_map)))
              (sym (items_after_other cfg key key0 others wal.key_map s))
              (unchanged-Step t id ids (items_of (lookup key wal.key_map)))
      ]

  discard_at-Step :
      (t id : ℕ) (ids : List ℕ) (wal : Wal) (o : Option (List ℕ)) (key : List ℕ)
      → Step t id ids
          (items_of (lookup key (discard_at cfg wal id o).0.key_map))
          (items_of (lookup key wal.key_map))
  unfolding discard_at
  discard_at-Step t id ids wal none key = unchanged-Step t id ids _
  discard_at-Step t id ids wal (some key0) key = discard_item-Step t id ids wal key0 _ refl key

  discard_loop-keeps :
      (t : ℕ) (ids : List ℕ) (wal : Wal)
      → ((key : List ℕ) → IsOrdered (items_of (lookup key wal.key_map)))
      → ((key : List ℕ) → AllItems (IsOwn t ids) (items_of (lookup key wal.key_map)))
      → (key : List ℕ)
      → IsOrdered (items_of (lookup key (discard_loop cfg ids wal).0.key_map))
        × SameFor t
            (items_of (lookup key (discard_loop cfg ids wal).0.key_map))
            (items_of (lookup key wal.key_map))
  unfolding discard_loop
  discard_loop-keeps t [] wal ord own key = (ord key, λ u r n. refl)
  discard_loop-keeps t (id ∷ ids) wal ord own key =
      let one = (discard_at cfg wal id (key_of id wal.key_map)).0 in
      let step : (k : List ℕ)
          → IsOrdered (items_of (lookup k one.key_map))
            × AllItems (IsOwn t ids) (items_of (lookup k one.key_map))
            × SameFor t (items_of (lookup k one.key_map)) (items_of (lookup k wal.key_map)) =
        λ k. discard_at-Step t id ids wal (key_of id wal.key_map) k (ord k) (own k) in
      let (o, same) = discard_loop-keeps t ids one (λ k. (step k).0) (λ k. (step k).1) key in
      (o, λ u r n. same u r n ∙ (step key).2 u r n)

-- When `wal_discard` takes the uncommitted items of a transaction out of the log, no other transaction
-- that reads what is committed finds anything else than before, whatever the key; and the items of
-- every key stay in order.
pub wal_discard-isolates :
    (cfg : Config) (txn u : FdbTxn) (wal : Wal) (key : List ℕ)
    → IsValid wal
    → Owns txn wal
    → u.isolation ≡ read_committed
    → u.txn_id ≢ txn.txn_id
    → IsValid (wal_discard cfg txn wal).1
      × (wal_find u (wal_discard cfg txn wal).1 key ≡ wal_find u wal key)
unfolding wal_discard wal_find IsValid
wal_discard-isolates cfg txn u wal key valid own r n =
    let keeps = discard_loop-keeps cfg txn.txn_id txn.items wal valid own in
    (λ k. (keeps k).0, ap found_of ((keeps key).1 u r n))
