-- ===== src/Wal/Discard/Others.antt =====
-- What other transactions see of `wal_discard`.
use forestdb.Common.{
  [], ℕ, Bool, List, ◌∷◌, ◌≡◌, Option, none, true, Bool-cases, ap, some, false, inl, arith, sym,
  inr, subst, if◌then◌else◌, refl, ◌∙◌,
}
use forestdb.Wal.{WalItem, FdbTxn, KeyMap, lookup, visible, find_items, items_of, same_key}
use forestdb.Wal.Insert.{Config, take_item, keep_item}
use forestdb.Wal.Order.{
  AllCommitted, IsOrdered, same_key_eq, lookup-put_same, lookup-put_other, find_items-skip,
  find_items-uncommitted,
}
use forestdb.Wal.Commit.Lookup.{not_flushed}
use forestdb.Wal.Discard.{remove, put_or_remove}

unfoldable pub AllItems : (WalItem → Type 0) → List WalItem → Type 0
AllItems Q [] = Unit
AllItems Q (item ∷ items) = Q item × AllItems Q items

AllItems-cons :
    (Q : WalItem → Type 0) (item : WalItem) (items : List WalItem)
    → Q item
    → AllItems Q items
    → AllItems Q (item ∷ items)
unfolding AllItems
AllItems-cons Q item items q all = (q, all)

pub AllItems-map :
    (Q R : WalItem → Type 0) (items : List WalItem)
    → ((i : WalItem) → Q i → R i)
    → AllItems Q items
    → AllItems R items
unfolding AllItems
AllItems-map Q R [] f all = tt
AllItems-map Q R (item ∷ items) f (q, all) = (f item q, AllItems-map Q R items f all)

-- What holds of all items holds of the one that is taken and of the others.
unfoldable pub TakenAll :
    (WalItem → Type 0) → (WalItem → Bool) → Option (WalItem × List WalItem) → Type 0
TakenAll Q p none = Unit
TakenAll Q p (some (item, others)) = (p item ≡ true) × Q item × AllItems Q others

keep_item-TakenAll :
    (Q : WalItem → Type 0) (p : WalItem → Bool) (item : WalItem)
    (o : Option (WalItem × List WalItem))
    → Q item
    → TakenAll Q p o
    → TakenAll Q p (keep_item item o)
unfolding TakenAll AllItems
keep_item-TakenAll Q p item none q t = tt
keep_item-TakenAll Q p item (some (i, is)) q (e, r, all) = (e, r, AllItems-cons Q item is q all)

pub take_item-TakenAll :
    (Q : WalItem → Type 0) (p : WalItem → Bool) (items : List WalItem)
    → AllItems Q items
    → TakenAll Q p (take_item p items)
unfolding take_item AllItems
take_item-TakenAll Q p [] all = unfold TakenAll in tt
take_item-TakenAll Q p (item ∷ items) (q, all) = elim (Bool-cases (p item)) [
  | inl t ↦ rw t (unfold TakenAll in (t, q, all))
  | inr f ↦
      rw f (keep_item-TakenAll Q p item (take_item p items) q (take_item-TakenAll Q p items all))
]

AllItems-committed :
    (items : List WalItem) → AllCommitted items → AllItems (λ i. i.committed ≡ true) items
unfolding AllItems AllCommitted
AllItems-committed [] all = tt
AllItems-committed (item ∷ items) (c, all) = (c, AllItems-committed items all)

-- A transaction does not miss an uncommitted item that it does not see.
unfoldable pub Missing : FdbTxn → List WalItem → Option (WalItem × List WalItem) → Type 0
Missing u items none = Unit
Missing u items (some (item, others)) =
    item.committed ≡ false → visible u item ≡ false → find_items u others ≡ find_items u items

keep_item-Missing :
    (u : FdbTxn) (p : WalItem → Bool) (item : WalItem) (items : List WalItem)
    (o : Option (WalItem × List WalItem))
    → (item.committed ≡ true → TakenAll (λ i. i.committed ≡ true) p o)
    → Missing u items o
    → Missing u (item ∷ items) (keep_item item o)
unfolding Missing TakenAll
keep_item-Missing u p item items none all m = tt
keep_item-Missing u p item items (some (i, is)) all m = λ c v. elim (Bool-cases item.committed) [
  | inl t ↦ (let d = (all t).1 in absurd (ground (arith, c, d)))
  | inr n ↦
      find_items-uncommitted u item is n
      ∙ ap (λ r. if item.flushed_out then none else if visible u item then some item else r) (m c v)
      ∙ sym (find_items-uncommitted u item items n)
]

pub take_item-Missing :
    (u : FdbTxn) (p : WalItem → Bool) (items : List WalItem)
    → IsOrdered items
    → Missing u items (take_item p items)
unfolding take_item IsOrdered
take_item-Missing u p [] o = unfold Missing in tt
take_item-Missing u p (item ∷ items) (behind, fl, o) = elim (Bool-cases (p item)) [
  | inl t ↦
      rw t (unfold Missing in λ c v. sym (find_items-skip u item items c (not_flushed item fl c) v))
  | inr f ↦ rw f (
      keep_item-Missing u p item items (take_item p items)
        (λ c.
          take_item-TakenAll (λ i. i.committed ≡ true) p items
            (AllItems-committed items (behind c)))
        (take_item-Missing u p items o))
]

lookup-remove_same : (key : List ℕ) (m : KeyMap) → lookup key (remove key m) ≡ none
unfolding lookup remove
lookup-remove_same key [] = refl
lookup-remove_same key ((key', items) ∷ m) = elim (Bool-cases (same_key key key')) [
  | inl t ↦ rw t (lookup-remove_same key m)
  | inr f ↦ rw f (rw f (lookup-remove_same key m))
]

lookup-remove_other :
    (key key' : List ℕ) (m : KeyMap)
    → same_key key key' ≡ false
    → lookup key (remove key' m) ≡ lookup key m
unfolding lookup remove
lookup-remove_other key key' [] e = refl
lookup-remove_other key key' ((k, is) ∷ m) e = elim (Bool-cases (same_key key' k)) [
  | inl t ↦
      (let other : same_key key k ≡ false =
          subst (λ t. same_key key t ≡ false) (same_key_eq key' k t) e in
        rw t (rw other (lookup-remove_other key key' m e)))
  | inr f ↦
      rw f (ap (λ r. if same_key key k then some is else r) (lookup-remove_other key key' m e))
]

module _ (cfg : Config) where
  pub items_after_same :
      (key : List ℕ) (others : List WalItem) (m : KeyMap)
      → items_of (lookup key (put_or_remove cfg key others m)) ≡ others
  unfolding put_or_remove
  items_after_same key [] m = ap items_of (lookup-remove_same key m)
  items_after_same key (o ∷ os) m = ap items_of (lookup-put_same key (o ∷ os) m)

  pub items_after_other :
      (key key' : List ℕ) (others : List WalItem) (m : KeyMap)
      → same_key key key' ≡ false
      → items_of (lookup key (put_or_remove cfg key' others m)) ≡ items_of (lookup key m)
  unfolding put_or_remove
  items_after_other key key' [] m e = ap items_of (lookup-remove_other key key' m e)
  items_after_other key key' (o ∷ os) m e = ap items_of (lookup-put_other key key' (o ∷ os) m e)
