-- ===== src/Wal/Commit/Lookup.antt =====
-- What a lookup finds in the items of a key after `wal_commit`.
use forestdb.Common.{
  [], ℕ, Option, Bool, List, ◌∷◌, ◌++◌, some, ◌≡◌, true, Bool-cases, none, refl, inl, false, ap,
  inr, ◌∙◌, subst, arith, sym,
}
use forestdb.Wal.{
  WalItem, FdbTxn, Wal, visible, scan_back, find_committed, find_items, reverse_onto,
}
use forestdb.Wal.Insert.{Config, take_item, keep_item}
use forestdb.Wal.Order.{
  AllCommitted, IsOrdered, find_items-single, find_items-first, find_items-skip,
}
use forestdb.Wal.Commit.{SnapHandle, dedup, drop_items, commit_items}
use forestdb.Wal.Commit.Reverse.{
  pending, pending-dedup, commit_items-IsOrdered, reverse_onto-reverse_onto, pending-committed,
}

abbrev pub or_else : Option WalItem → WalItem → WalItem
or_else none item = item
or_else (some i) item = i

-- Taking an item leaves the others in order.
abbrev pub Rest : Option (WalItem × List WalItem) → Type 0
Rest none = Unit
Rest (some (item, others)) = (item.flushed_out ≡ true → item.committed ≡ true) × IsOrdered others

unfoldable RestCommitted : Option (WalItem × List WalItem) → Type 0
RestCommitted none = Unit
RestCommitted (some (item, others)) = AllCommitted others

keep_item-RestCommitted :
    (item : WalItem) (o : Option (WalItem × List WalItem))
    → item.committed ≡ true
    → RestCommitted o
    → RestCommitted (keep_item item o)
unfolding RestCommitted AllCommitted
keep_item-RestCommitted item none c r = tt
keep_item-RestCommitted item (some (i, is)) c r = (c, r)

take_item-RestCommitted :
    (p : WalItem → Bool) (items : List WalItem)
    → AllCommitted items
    → RestCommitted (take_item p items)
unfolding take_item AllCommitted
take_item-RestCommitted p [] all = unfold RestCommitted in tt
take_item-RestCommitted p (item ∷ items) (c, all) = elim (Bool-cases (p item)) [
  | inl t ↦ rw t (unfold RestCommitted in all)
  | inr f ↦
      rw f
        (keep_item-RestCommitted item (take_item p items) c (take_item-RestCommitted p items all))
]

IsOrdered-cons :
    (item : WalItem) (items : List WalItem)
    → (item.committed ≡ true → AllCommitted items)
    → (item.flushed_out ≡ true → item.committed ≡ true)
    → IsOrdered items
    → IsOrdered (item ∷ items)
unfolding IsOrdered
IsOrdered-cons item items c fl o = (c, fl, o)

keep_item-Rest :
    (item : WalItem) (o : Option (WalItem × List WalItem))
    → (item.flushed_out ≡ true → item.committed ≡ true)
    → (item.committed ≡ true → RestCommitted o)
    → Rest o
    → Rest (keep_item item o)
unfolding RestCommitted IsOrdered
keep_item-Rest item none fl c r = tt
keep_item-Rest item (some (i, is)) fl c (g, o) = (g, IsOrdered-cons item is c fl o)

pub take_item-Rest :
    (p : WalItem → Bool) (items : List WalItem) → IsOrdered items → Rest (take_item p items)
unfolding take_item IsOrdered
take_item-Rest p [] o = tt
take_item-Rest p (item ∷ items) (behind, fl, o) = elim (Bool-cases (p item)) [
  | inl t ↦ rw t (fl, o)
  | inr f ↦ rw f (
      keep_item-Rest item (take_item p items) fl (λ c. take_item-RestCommitted p items (behind c))
        (take_item-Rest p items o))
]

reverse_onto-snoc :
    (xs acc : List WalItem) (c : WalItem)
    → reverse_onto (xs ++ (c ∷ [])) acc ≡ c ∷ reverse_onto xs acc
reverse_onto-snoc [] acc c = refl
reverse_onto-snoc (x ∷ xs) acc c = reverse_onto-snoc xs (x ∷ acc) c

reverse_onto-append :
    (xs acc tail : List WalItem) → reverse_onto xs (acc ++ tail) ≡ reverse_onto xs acc ++ tail
reverse_onto-append [] acc tail = refl
reverse_onto-append (x ∷ xs) acc tail = reverse_onto-append xs (x ∷ acc) tail

-- The scan from the end finds the last item, which is committed.
find_committed-snoc :
    (u : FdbTxn) (item : WalItem) (xs : List WalItem) (c : WalItem)
    → c.committed ≡ true
    → c.flushed_out ≡ false
    → find_committed u item (xs ++ (c ∷ [])) ≡ some c
unfolding find_committed scan_back
find_committed-snoc u item [] c e f = rw (e, f) refl
find_committed-snoc u item (x ∷ xs) c e f =
    ap (scan_back u) (reverse_onto-snoc xs (x ∷ []) c) ∙ rw (e, f) refl

pending-none : (u : FdbTxn) (items : List WalItem) → AllCommitted items → pending u items ≡ none
unfolding pending AllCommitted
pending-none u [] all = refl
pending-none u (item ∷ items) (c, all) = rw c (pending-none u items all)

AllCommitted-left : (xs ys : List WalItem) → AllCommitted (xs ++ ys) → AllCommitted xs
unfolding AllCommitted
AllCommitted-left [] ys all = tt
AllCommitted-left (x ∷ xs) ys (c, all) = (c, AllCommitted-left xs ys all)

find_items-committed :
    (u : FdbTxn) (item : WalItem) (items : List WalItem)
    → item.committed ≡ true
    → find_items u (item ∷ items) ≡ find_committed u item items
unfolding find_items
find_items-committed u item items e = rw e refl

pending-visible :
    (u : FdbTxn) (item : WalItem) (items : List WalItem)
    → item.committed ≡ false
    → visible u item ≡ true
    → pending u (item ∷ items) ≡ some item
unfolding pending
pending-visible u item items c v = rw (c, v) refl

pending-invisible :
    (u : FdbTxn) (item : WalItem) (items : List WalItem)
    → item.committed ≡ false
    → visible u item ≡ false
    → pending u (item ∷ items) ≡ pending u items
unfolding pending
pending-invisible u item items c v = rw (c, v) refl

pub not_flushed :
    (item : WalItem)
    → (item.flushed_out ≡ true → item.committed ≡ true)
    → item.committed ≡ false
    → item.flushed_out ≡ false
not_flushed item h n = elim (Bool-cases item.flushed_out) [
  | inl t ↦ (let c = h t in absurd (ground (arith, c, n)))
  | inr f ↦ f
]

-- A lookup in items of which the last one is committed: the first uncommitted one that is seen, or
-- the last one.
find_items-snoc :
    (u : FdbTxn) (xs : List WalItem) (c : WalItem)
    → IsOrdered (xs ++ (c ∷ []))
    → c.committed ≡ true
    → c.flushed_out ≡ false
    → find_items u (xs ++ (c ∷ [])) ≡ some (or_else (pending u xs) c)
unfolding IsOrdered
find_items-snoc u [] c o e f = find_items-single u c e f ∙ unfold pending in refl
find_items-snoc u (x ∷ xs) c (behind, fl, o) e f = elim (Bool-cases x.committed) [
  | inl t ↦
      find_items-committed u x (xs ++ (c ∷ [])) t
      ∙ find_committed-snoc u x xs c e f
      ∙ ap (λ r. some (or_else r c))
          (sym (
            pending-committed u x xs t
            ∙ pending-none u xs (AllCommitted-left xs (c ∷ []) (behind t))))
  | inr n ↦ elim (Bool-cases (visible u x)) [
    | inl v ↦
        find_items-first u x (xs ++ (c ∷ [])) n (not_flushed x fl n) v
        ∙ ap (λ r. some (or_else r c)) (sym (pending-visible u x xs n v))
    | inr v ↦
        find_items-skip u x (xs ++ (c ∷ [])) n (not_flushed x fl n) v
        ∙ find_items-snoc u xs c o e f
        ∙ ap (λ r. some (or_else r c)) (sym (pending-invisible u x xs n v))
  ]
]

pub key_map-drop_items :
    (cfg : Config) (snapshots : List SnapHandle) (mark : Option (ℕ → Bool)) (kv_of : List ℕ → ℕ)
    (dropped : List (WalItem × WalItem)) (wal : Wal)
    → (drop_items cfg snapshots mark kv_of wal dropped).key_map ≡ wal.key_map
unfolding drop_items
key_map-drop_items cfg snapshots mark kv_of [] wal = refl
key_map-drop_items cfg snapshots mark kv_of ((item, cover) ∷ dropped) wal =
    key_map-drop_items cfg snapshots mark kv_of dropped _

module _ (cfg : Config) (snapshots : List SnapHandle) (mark : Option (ℕ → Bool))
    (kv_of : List ℕ → ℕ) where
  pub find_items-commit_items :
      (u : FdbTxn) (kv_id : ℕ) (item : WalItem) (others : List WalItem)
      → IsOrdered others
      → item.flushed_out ≡ false
      → find_items u (commit_items cfg snapshots mark kv_of kv_id item others).0
        ≡ some (or_else (pending u others) (record item { committed = true }))
  unfolding commit_items
  find_items-commit_items u kv_id item others o f =
      let item' = record item { committed = true } in
      let kept = (dedup cfg snapshots mark kv_of kv_id item' (reverse_onto others [])).0 in
      let split : reverse_onto kept (item' ∷ []) ≡ reverse_onto kept [] ++ (item' ∷ []) =
        reverse_onto-append kept [] (item' ∷ []) in
      let ordered : IsOrdered (reverse_onto kept (item' ∷ [])) =
        commit_items-IsOrdered cfg snapshots mark kv_of kv_id item others o in
      ap (find_items u) split
      ∙ find_items-snoc u (reverse_onto kept []) item' (subst IsOrdered split ordered) refl f
      ∙ ap (λ r. some (or_else r item'))
          (pending-dedup cfg snapshots mark kv_of u kv_id item' (reverse_onto others []) []
            ∙ ap (pending u) (reverse_onto-reverse_onto others []))
