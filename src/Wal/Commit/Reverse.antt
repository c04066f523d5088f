-- ===== src/Wal/Commit/Reverse.antt =====
-- The order of the items of a key in `wal_commit`, which scans them from the end.
use forestdb.Common.{
  [], ℕ, List, ◌⊎◌, ◌≡◌, ◌∷◌, Option, true, none, Bool, inl, false, refl, ap, Bool-cases,
  if◌then◌else◌, inr, not, ◌&&◌, arith, some, ◌∙◌, ◌==◌, ◌||◌, sym,
}
use forestdb.Wal.{WalItem, FdbTxn, visible, reverse_onto}
use forestdb.Wal.Insert.{Config}
use forestdb.Wal.Order.{AllCommitted, IsOrdered}
use forestdb.Wal.Commit.{SnapHandle, dedup, commit_items, wal_can_discard}

unfoldable pub AllUncommitted : List WalItem → Type 0
AllUncommitted [] = Unit
AllUncommitted (item ∷ items) = (item.committed ≡ false) × AllUncommitted items

-- The same order, from the end.
unfoldable pub IsBackward : List WalItem → Type 0
unfolding AllUncommitted
IsBackward [] = Unit
IsBackward (item ∷ items) =
    (item.committed ≡ false → AllUncommitted items)
    × (item.flushed_out ≡ true → item.committed ≡ true)
    × IsBackward items

pub reverse_onto-IsBackward :
    (xs acc : List WalItem)
    → IsOrdered xs
    → IsBackward acc
    → AllUncommitted acc ⊎ AllCommitted xs
    → IsBackward (reverse_onto xs acc)
unfolding IsOrdered IsBackward AllUncommitted AllCommitted
reverse_onto-IsBackward [] acc o b side = b
reverse_onto-IsBackward (x ∷ xs) acc (behind, fl, o) b (inl un) =
    reverse_onto-IsBackward xs (x ∷ acc) o (λ e. un, fl, b)
      (elim (Bool-cases x.committed) [ inl c ↦ inr (behind c) | inr c ↦ inl (c, un) ])
reverse_onto-IsBackward (x ∷ xs) acc (behind, fl, o) b (inr (c, co)) =
    reverse_onto-IsBackward xs (x ∷ acc) o (λ e. absurd (ground (arith, c, e)), fl, b) (inr co)

pub reverse_onto-IsOrdered :
    (xs acc : List WalItem)
    → IsBackward xs
    → IsOrdered acc
    → AllCommitted acc ⊎ AllUncommitted xs
    → IsOrdered (reverse_onto xs acc)
unfolding IsOrdered IsBackward AllUncommitted AllCommitted
reverse_onto-IsOrdered [] acc b o side = o
reverse_onto-IsOrdered (x ∷ xs) acc (behind, fl, b) o (inl co) =
    reverse_onto-IsOrdered xs (x ∷ acc) b (λ e. co, fl, o)
      (elim (Bool-cases x.committed) [ inl c ↦ inl (c, co) | inr c ↦ inr (behind c) ])
reverse_onto-IsOrdered (x ∷ xs) acc (behind, fl, b) o (inr (c, un)) =
    reverse_onto-IsOrdered xs (x ∷ acc) b (λ e. absurd (ground (arith, c, e)), fl, o) (inr un)

-- The uncommitted item that a transaction sees.
unfoldable pub pending : FdbTxn → List WalItem → Option WalItem
unfolding visible
pending txn [] = none
pending txn (item ∷ items) =
    let rest = pending txn items in
    if not item.committed && visible txn item then some item else rest

pub pending-cons :
    (txn : FdbTxn) (item : WalItem) (a b : List WalItem)
    → pending txn a ≡ pending txn b
    → pending txn (item ∷ a) ≡ pending txn (item ∷ b)
unfolding pending
pending-cons txn item a b e =
    ap (λ r. if not item.committed && visible txn item then some item else r) e

pub pending-committed :
    (txn : FdbTxn) (item : WalItem) (items : List WalItem)
    → item.committed ≡ true
    → pending txn (item ∷ items) ≡ pending txn items
unfolding pending
pending-committed txn item items e =
    ap (λ c. if not c && visible txn item then some item else pending txn items) e

pending-reverse_onto :
    (txn : FdbTxn) (xs a b : List WalItem)
    → pending txn a ≡ pending txn b
    → pending txn (reverse_onto xs a) ≡ pending txn (reverse_onto xs b)
pending-reverse_onto txn [] a b e = e
pending-reverse_onto txn (x ∷ xs) a b e =
    pending-reverse_onto txn xs (x ∷ a) (x ∷ b) (pending-cons txn x a b e)

pub reverse_onto-reverse_onto :
    (xs acc : List WalItem) → reverse_onto (reverse_onto xs acc) [] ≡ reverse_onto acc xs
reverse_onto-reverse_onto [] acc = refl
reverse_onto-reverse_onto (x ∷ xs) acc = reverse_onto-reverse_onto xs (x ∷ acc)

IsBackward-tail :
    (item : WalItem) (items : List WalItem) → IsBackward (item ∷ items) → IsBackward items
unfolding IsBackward
IsBackward-tail item items (behind, fl, b) = b

IsBackward-committed :
    (item : WalItem) (items : List WalItem)
    → item.committed ≡ true
    → IsBackward items
    → IsBackward (item ∷ items)
unfolding IsBackward
IsBackward-committed item items e b = (λ f. absurd (ground (arith, e, f)), λ f. e, b)

-- A choice with four outcomes.
pick :
    {A : Type 0} (P : A → Type 0) (c1 c2 c3 : Bool) (a b c d : A)
    → (c1 ≡ true → P a)
    → (c1 ≡ false → P b)
    → (c1 ≡ false → P c)
    → (c1 ≡ false → P d)
    → P (if c1 then a else if c2 then b else if c3 then c else d)
pick P true c2 c3 a b c d h1 h2 h3 h4 = h1 refl
pick P false true c3 a b c d h1 h2 h3 h4 = h2 refl
pick P false false true a b c d h1 h2 h3 h4 = h3 refl
pick P false false false a b c d h1 h2 h3 h4 = h4 refl

module _ (cfg : Config) (snapshots : List SnapHandle) (mark : Option (ℕ → Bool))
    (kv_of : List ℕ → ℕ) where
  -- What is shown of the four outcomes of a round holds of the round.
  dedup_cases :
      (P : List WalItem × List (WalItem × WalItem) → Type 0) (kv_id : ℕ) (cover item : WalItem)
      (items : List WalItem)
      → (item.committed ≡ false → P (item ∷ items, []))
      → ((c : WalItem)
          → item.committed ≡ true
          → P (
            item ∷ (dedup cfg snapshots mark kv_of kv_id c items).0,
            (dedup cfg snapshots mark kv_of kv_id c items).1,
          ))
      → (item.committed ≡ true
          → P (
            (dedup cfg snapshots mark kv_of kv_id cover items).0,
            (item, cover) ∷ (dedup cfg snapshots mark kv_of kv_id cover items).1,
          ))
      → P (dedup cfg snapshots mark kv_of kv_id cover (item ∷ items))
  unfolding dedup
  dedup_cases P kv_id cover item items stop keep drop =
      let skip = dedup cfg snapshots mark kv_of kv_id item items in
      let on = dedup cfg snapshots mark kv_of kv_id cover items in
      pick P (not item.committed)
        (not (
          (cover.snap_tag == item.snap_tag)
          || wal_can_discard kv_id item.snap_tag cover.snap_tag snapshots))
        item.flush_ready (item ∷ items, []) (item ∷ skip.0, skip.1) (item ∷ on.0, on.1)
        (on.0, (item, cover) ∷ on.1) (λ e. stop (ground (arith, e)))
        (λ e. keep item (ground (arith, e))) (λ e. keep cover (ground (arith, e)))
        (λ e. drop (ground (arith, e)))

  pub dedup-IsBackward :
      (kv_id : ℕ) (cover : WalItem) (items : List WalItem)
      → IsBackward items
      → IsBackward (dedup cfg snapshots mark kv_of kv_id cover items).0
  dedup-IsBackward kv_id cover [] b = unfold dedup IsBackward in tt
  dedup-IsBackward kv_id cover (item ∷ items) back =
      dedup_cases (λ out. IsBackward out.0) kv_id cover item items (λ e. back)
        (λ c e.
          IsBackward-committed item (dedup cfg snapshots mark kv_of kv_id c items).0 e
            (dedup-IsBackward kv_id c items (IsBackward-tail item items back)))
        (λ e. dedup-IsBackward kv_id cover items (IsBackward-tail item items back))

  pub pending-dedup :
      (txn : FdbTxn) (kv_id : ℕ) (cover : WalItem) (items acc : List WalItem)
      → pending txn (reverse_onto (dedup cfg snapshots mark kv_of kv_id cover items).0 acc)
        ≡ pending txn (reverse_onto items acc)
  pending-dedup txn kv_id cover [] acc = unfold dedup in refl
  pending-dedup txn kv_id cover (item ∷ items) acc =
      dedup_cases
        (λ out.
          pending txn (reverse_onto out.0 acc) ≡ pending txn (reverse_onto items (item ∷ acc)))
        kv_id cover item items (λ e. refl) (λ c e. pending-dedup txn kv_id c items (item ∷ acc))
        (λ e.
          pending-dedup txn kv_id cover items acc
          ∙ pending-reverse_onto txn items acc (item ∷ acc)
              (sym (pending-committed txn item acc e)))

  pub commit_items-IsOrdered :
      (kv_id : ℕ) (item : WalItem) (others : List WalItem)
      → IsOrdered others
      → IsOrdered (commit_items cfg snapshots mark kv_of kv_id item others).0
  unfolding commit_items
  commit_items-IsOrdered kv_id item others o =
      let item' = record item { committed = true } in
      reverse_onto-IsOrdered (dedup cfg snapshots mark kv_of kv_id item' (reverse_onto others [])).0
        (item' ∷ [])
        (dedup-IsBackward kv_id item' (reverse_onto others []) (
          reverse_onto-IsBackward others [] o (unfold IsBackward in tt)
            (inl (unfold AllUncommitted in tt))))
        (unfold IsOrdered AllCommitted in (λ e. tt, λ e. refl, tt))
        (inl (unfold AllCommitted in (refl, tt)))
