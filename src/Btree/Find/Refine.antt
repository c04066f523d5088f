-- ===== src/Btree/Find/Refine.antt =====
-- `btree_find` finds a key exactly if some leaf of the tree holds it.
use forestdb.Btree.Node.{Bnode, get_kv, btree_find_entry}
use forestdb.Btree.Node.Sorted.{key_at, rises, IsNode, IsLast, Finds, btree_find_entry-Finds}
use forestdb.Btree.Node.Lookup.{leaf_find, leaf_find-at, leaf_find-none, key_cases}
use forestdb.Btree.Find.{find_from, btree_find}
use forestdb.Common.{
  ℕ, some, ◌≤◌, if◌then◌else◌, ◌≡◌, ◌<◌, suc, arith, zero, ltb, Bool-cases, inl, ◌+◌, ltb→lt, inr,
  true, sym, ◌-◌, Option-cases, subst, ◌^◌, ap, ◌↔◌, ◌∙◌, refl,
}

-- The bound of the keys below entry `i`.
abbrev pub upper : Bnode → ℕ → ℕ → ℕ
upper node hi i = if ltb (i + 1) node.nentry then key_at node (i + 1) else hi

-- All keys of a node lie in a range.
abbrev pub InRange : Bnode → ℕ → ℕ → Type 0
InRange node lo hi = (i : ℕ) → i < node.nentry → (lo ≤ key_at node i) × (key_at node i < hi)

module _ (read : ℕ → Bnode) where
  -- A tree of `h` index levels below block `bid`, whose keys lie between `lo` and `hi`: each child
  -- holds the keys from its entry's key up to the next one's.
  abbrev pub IsTree : ℕ → ℕ → ℕ → ℕ → Type 0
  IsTree zero bid lo hi = IsNode (read bid) × InRange (read bid) lo hi
  IsTree (suc h) bid lo hi =
      IsNode (read bid)
      × InRange (read bid) lo hi
      × ((i : ℕ)
          → i < (read bid).nentry
          → IsTree h (get_kv (read bid) i).value (key_at (read bid) i) (upper (read bid) hi i))

  -- Some leaf below block `bid` has the entry, on whatever path.
  abbrev pub Holds : ℕ → ℕ → ℕ → ℕ → Type 0
  Holds zero bid key value =
      (i : ℕ) × (i < (read bid).nentry)
      × (key_at (read bid) i ≡ key)
      × ((get_kv (read bid) i).value ≡ value)
  Holds (suc h) bid key value =
      (i : ℕ) × (i < (read bid).nentry) × Holds h (get_kv (read bid) i).value key value

  Holds-range :
      (h bid lo hi key value : ℕ)
      → IsTree h bid lo hi
      → Holds h bid key value
      → (lo ≤ key) × (key < hi)
  Holds-range zero bid lo hi key value t (i, k, e, w) = omega (arith, t.1 i k)
  Holds-range (suc h) bid lo hi key value t (i, k, held) =
      let below = Holds-range h _ _ _ key value (t.2 i k) held in
      let top : upper (read bid) hi i ≤ hi = upper-le i in omega (arith, t.1 i k, below)
    where
      upper-le : (i : ℕ) → upper (read bid) hi i ≤ hi
      upper-le i = ground (arith, t.1 (i + 1))

  -- The entry that the search picks is the one whose range the key is in.
  picked :
      (node : Bnode) (key hi i idx : ℕ)
      → IsNode node
      → IsLast node key idx
      → i < node.nentry
      → key_at node i ≤ key
      → key < upper node hi i
      → idx ≡ i
  picked node key hi i idx v l h low high = elim (Bool-cases (ltb idx i)) [
    | inl less ↦ absurd (omega (arith, l.above i (ltb→lt idx i less) h))
    | inr not_less ↦ elim (Bool-cases (ltb i idx)) [
      | inl more ↦ absurd (
          let m = ltb→lt i idx more in
          let next : ltb (i + 1) node.nentry ≡ true = (let x = l.inside in ground arith) in
          let bound : key < key_at node (i + 1) = ground (arith, next, high) in
          omega (arith, rises node v (i + 1) idx (omega arith) l.inside, l.not_above))
      | inr not_more ↦ ground arith
    ]
  ]

  find_from_complete :
      (h bid lo hi key value : ℕ)
      → IsTree h bid lo hi
      → Holds h bid key value
      → find_from read h bid key ≡ some value
  unfolding find_from leaf_find
  find_from_complete zero bid lo hi key value t (i, k, e, w) =
      leaf_find-at (read bid) (t.0) i key value k e w
  find_from_complete (suc h) bid lo hi key value t (i, k, held) =
      let below = Holds-range h _ _ _ key value (t.2 i k) held in
      let rest = find_from_complete h _ _ _ key value (t.2 i k) held in
      elim (Option-cases (btree_find_entry (read bid) key)) [
        | inl e ↦ absurd (
            let f = subst (Finds (read bid) key) e (btree_find_entry-Finds (read bid) key (t.0)) in
            omega (arith, f i k, below))
        | inr (idx, e) ↦
            let f = subst (Finds (read bid) key) e (btree_find_entry-Finds (read bid) key (t.0)) in
            let same = picked (read bid) key hi i idx (t.0) f k (below.0) (below.1) in
            rw (find_from, e)
              (ap (λ x. find_from read h (get_kv (read bid) x).value key) same ∙ rest)
      ]

  find_from_sound :
      (h bid lo hi key value : ℕ)
      → IsTree h bid lo hi
      → find_from read h bid key ≡ some value
      → Holds h bid key value
  unfolding find_from leaf_find
  find_from_sound zero bid lo hi key value t e = elim (key_cases (read bid) key (t.0)) [
    | inl (i, k, at) ↦
        (let here = leaf_find-at (read bid) (t.0) i key _ k (sym at) refl in
          (i, k, sym at, (let both = sym here ∙ e in cc)))
    | inr absent ↦ absurd (let both = sym (leaf_find-none (read bid) key (t.0) absent) ∙ e in cc)
  ]
  find_from_sound (suc h) bid lo hi key value t e =
      elim (Option-cases (btree_find_entry (read bid) key)) [
        | inl none_here ↦ absurd (let e' = rw (find_from, none_here) at e in cc)
        | inr (idx, found) ↦
            let f =
              subst (Finds (read bid) key) found (btree_find_entry-Finds (read bid) key (t.0)) in
            (
              idx,
              f.inside,
              find_from_sound h _ _ _ key value (t.2 idx f.inside) (rw (find_from, found) at e),
            )
      ]

  -- In a tree whose nodes are in order and whose children keep to the ranges of their entries,
  -- `btree_find` finds a value for a key exactly if some leaf of the tree holds it.
  pub btree_find-Holds :
      (height root_bid key value : ℕ)
      → IsTree (height - 1) root_bid 0 (2 ^ 64)
      → (btree_find read height root_bid key ≡ some value) ↔ Holds (height - 1) root_bid key value
  unfolding btree_find
  btree_find-Holds height root_bid key value t =
      (find_from_sound _ _ _ _ key value t, find_from_complete _ _ _ _ key value t)
