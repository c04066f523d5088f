-- ===== src/Wal/Order.antt =====
-- The order of the items of a key in the write-ahead log, and its map of keys.
use forestdb.Common.{
  [], ℕ, List, ◌≡◌, Bool, some, ◌∷◌, true, Option, false, Bool-cases, none, arith, refl, ap₂, inl,
  ap, if◌then◌else◌, subst, inr, sym, ◌∙◌,
}
use forestdb.Wal.{
  WalItem, FdbTxn, Wal, KeyMap, same_key, lookup, put, visible, find_committed, find_items,
  items_of,
}
use forestdb.Wal.Insert.{take_item, keep_item}

unfoldable pub AllCommitted : List WalItem → Type 0
AllCommitted [] = Unit
AllCommitted (item ∷ items) = (item.committed ≡ true) × AllCommitted items

-- Committed items stand behind uncommitted ones, and only committed ones were flushed.
unfoldable pub IsOrdered : List WalItem → Type 0
unfolding AllCommitted
IsOrdered [] = Unit
IsOrdered (item ∷ items) =
    (item.committed ≡ true → AllCommitted items)
    × (item.flushed_out ≡ true → item.committed ≡ true)
    × IsOrdered items

unfoldable pub IsValid : Wal → Type 0
IsValid wal = (key : List ℕ) → IsOrdered (items_of (lookup key wal.key_map))

pub same_key_refl : (key : List ℕ) → same_key key key ≡ true
unfolding same_key
same_key_refl [] = refl
same_key_refl (b ∷ bs) = ground (arith, same_key_refl bs)

pub same_key_eq : (a b : List ℕ) → same_key a b ≡ true → a ≡ b
unfolding same_key
same_key_eq [] [] e = refl
same_key_eq [] (b ∷ bs) e = absurd (ground (arith, e))
same_key_eq (a ∷ xs) [] e = absurd (ground (arith, e))
same_key_eq (a ∷ xs) (b ∷ bs) e =
    ap₂ (λ t ts. t ∷ ts) (ground (arith, e)) (same_key_eq xs bs (ground (arith, e)))

pub lookup-put_same :
    (key : List ℕ) (items : List WalItem) (m : KeyMap) → lookup key (put key items m) ≡ some items
unfolding lookup put
lookup-put_same key items [] = rw (same_key_refl key) refl
lookup-put_same key items ((key', items') ∷ m) = elim (Bool-cases (same_key key key')) [
  | inl t ↦ rw (t, t) refl
  | inr f ↦ rw (f, f) (lookup-put_same key items m)
]

pub lookup-put_other :
    (key key' : List ℕ) (items : List WalItem) (m : KeyMap)
    → same_key key key' ≡ false
    → lookup key (put key' items m) ≡ lookup key m
unfolding lookup put
lookup-put_other key key' items [] e = rw e refl
lookup-put_other key key' items ((k, is) ∷ m) e = elim (Bool-cases (same_key key' k)) [
  | inl t ↦
      (let other : same_key key k ≡ false =
          subst (λ t. same_key key t ≡ false) (same_key_eq key' k t) e in
        rw t (rw other refl))
  | inr f ↦
      rw f (ap (λ r. if same_key key k then some is else r) (lookup-put_other key key' items m e))
]

-- A log in which the items of one key were put anew.
pub put-IsValid :
    (wal wal' : Wal) (key : List ℕ) (items : List WalItem)
    → wal'.key_map ≡ put key items wal.key_map
    → IsOrdered items
    → IsValid wal
    → IsValid wal'
unfolding IsValid
put-IsValid wal wal' key items e o valid k = elim (Bool-cases (same_key k key)) [
  | inl t ↦
      subst (λ l. IsOrdered (items_of (lookup l wal'.key_map))) (sym (same_key_eq k key t))
        (subst IsOrdered
          (sym (
            ap (λ m. items_of (lookup key m)) e
            ∙ ap items_of (lookup-put_same key items wal.key_map)))
          o)
  | inr f ↦
      subst IsOrdered
        (sym (
          ap (λ m. items_of (lookup k m)) e
          ∙ ap items_of (lookup-put_other k key items wal.key_map f)))
        (valid k)
]

pub find_items-skip :
    (txn : FdbTxn) (item : WalItem) (items : List WalItem)
    → item.committed ≡ false
    → item.flushed_out ≡ false
    → visible txn item ≡ false
    → find_items txn (item ∷ items) ≡ find_items txn items
unfolding find_items
find_items-skip txn item items c f v = rw (c, f, v) refl

pub find_items-first :
    (txn : FdbTxn) (item : WalItem) (items : List WalItem)
    → item.committed ≡ false
    → item.flushed_out ≡ false
    → visible txn item ≡ true
    → find_items txn (item ∷ items) ≡ some item
unfolding find_items
find_items-first txn item items c f v = rw (c, f, v) refl

pub find_items-single :
    (txn : FdbTxn) (item : WalItem)
    → item.committed ≡ true
    → item.flushed_out ≡ false
    → find_items txn (item ∷ []) ≡ some item
unfolding find_items find_committed
find_items-single txn item c f = rw (c, f) refl

pub find_items-uncommitted :
    (txn : FdbTxn) (item : WalItem) (items : List WalItem)
    → item.committed ≡ false
    → find_items txn (item ∷ items) ≡ (
        if item.flushed_out
        then none
        else if visible txn item
        then some item
        else find_items txn items)
unfolding find_items
find_items-uncommitted txn item items c =
    ap
      (λ b.
        if b
        then find_committed txn item items
        else if item.flushed_out
        then none
        else if visible txn item
        then some item
        else find_items txn items)
      c

-- What it leaves to take an uncommitted item.
unfoldable pub Taken : (WalItem → Bool) → List WalItem → Option (WalItem × List WalItem) → Type 0
Taken p items none = Unit
Taken p items (some (item, others)) =
    (p item ≡ true)
    × (item.flushed_out ≡ false)
    × IsOrdered others
    × ((txn : FdbTxn) → visible txn item ≡ false → find_items txn others ≡ find_items txn items)

module _ (p : WalItem → Bool)
    (uncommitted : (item : WalItem) → p item ≡ true → item.committed ≡ false) where
  not_flushed :
      (item : WalItem)
      → p item ≡ true
      → (item.flushed_out ≡ true → item.committed ≡ true)
      → item.flushed_out ≡ false
  not_flushed item e h = elim (Bool-cases item.flushed_out) [
    | inl t ↦ (let c = uncommitted item e in let d = h t in absurd (ground (arith, c, d)))
    | inr f ↦ f
  ]

  take_item-none : (items : List WalItem) → AllCommitted items → take_item p items ≡ none
  unfolding take_item AllCommitted
  take_item-none [] all = refl
  take_item-none (item ∷ items) (c, all) = elim (Bool-cases (p item)) [
    | inl t ↦ (let d = uncommitted item t in absurd (ground (arith, c, d)))
    | inr f ↦ rw f (ap (keep_item item) (take_item-none items all))
  ]

  keep_item-Taken :
      (item : WalItem) (items : List WalItem) (r : Option (WalItem × List WalItem))
      → item.committed ≡ false
      → (item.flushed_out ≡ true → item.committed ≡ true)
      → Taken p items r
      → Taken p (item ∷ items) (keep_item item r)
  unfolding Taken IsOrdered find_items
  keep_item-Taken item items none c h t = tt
  keep_item-Taken item items (some (i, is)) c h (own, fl, ord, same) = (
    own,
    fl,
    (λ d. absurd (ground (arith, c, d)), h, ord),
    λ txn v.
        find_items-uncommitted txn item is c
        ∙ ap (λ r. if item.flushed_out then none else if visible txn item then some item else r)
            (same txn v)
        ∙ sym (find_items-uncommitted txn item items c),
  )

  pub take_item-Taken : (items : List WalItem) → IsOrdered items → Taken p items (take_item p items)
  unfolding take_item IsOrdered
  take_item-Taken [] ord = unfold Taken in tt
  take_item-Taken (item ∷ items) (behind, h, ord) = elim (Bool-cases (p item)) [
    | inl t ↦ rw t (
        unfold Taken in
        (
          t,
          not_flushed item t h,
          ord,
          λ txn v.
              sym (find_items-skip txn item items (uncommitted item t) (not_flushed item t h) v),
        ))
    | inr f ↦ rw f (elim (Bool-cases item.committed) [
      | inl c ↦ rw (take_item-none items (behind c)) (unfold Taken in tt)
      | inr c ↦ keep_item-Taken item items (take_item p items) c h (take_item-Taken items ord)
    ])
  ]
