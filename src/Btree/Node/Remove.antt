-- ===== src/Btree/Node/Remove.antt =====
-- `_btree_remove_entry` on the map that a node stands for.
use forestdb.Btree.Node.{
  Bnode, get_kv, ins_kv, btree_find_entry, btree_remove_entry, remove_found, Option, ltb,
}
use forestdb.Btree.Node.Sorted.{key_at, IsNode, IsLast, Finds, btree_find_entry-Finds}
use forestdb.Btree.Node.Lookup.{leaf_find, leaf_find-at, leaf_find-none, key_cases, IsNode-unique}
use forestdb.Btree.Node.Moves.{get_kv-ins_kv-none, length-ins_kv-none}
use forestdb.Common.{
  ℕ, none, some, ◌+◌, ◌<◌, Option, ◌≢◌, ◌-◌, Bool-cases, ◌≤◌, arith, ◌≡◌, ap, if◌then◌else◌, ◌∙◌,
  ◌↔◌, ltb, ◌==◌, inl, inr, ltb→lt, refl, sym,
}

-- The node is in order, and entry `idx` is gone.
pub record IsWithout (node : Bnode) (idx : ℕ) (out : Bnode) : Type 0 where
  pub sound : IsNode out
  pub count : out.nentry + 1 ≡ node.nentry
  pub map :
      (key : ℕ) → leaf_find out key ≡ (if key == key_at node idx then none else leaf_find node key)

origins_rise :
    (a b i j idx : ℕ)
    → a < b
    → a ≤ i
    → i ≤ a + 1
    → ((idx ≤ a) ↔ (i ≡ a + 1))
    → b ≤ j
    → j ≤ b + 1
    → ((idx ≤ b) ↔ (j ≡ b + 1))
    → i < j
origins_rise a b i j idx p li ui wi lj uj wj = ground arith

module _ (node : Bnode) (idx : ℕ) (v : IsNode node) (h : idx < node.nentry) where
  abbrev out : Bnode
  out = record (ins_kv node idx none) { nentry = node.nentry - 1 }

  before : (j : ℕ) → j < idx → get_kv out j ≡ get_kv node j
  before j p = get_kv-ins_kv-none node idx j h v.room (omega arith) ∙ ground arith

  behind : (j : ℕ) → idx ≤ j → j + 1 < node.nentry → get_kv out j ≡ get_kv node (j + 1)
  behind j p q = get_kv-ins_kv-none node idx j h v.room q ∙ ground arith

  -- Where an entry of the result comes from.
  origin :
      (j : ℕ)
      → j + 1 < node.nentry
      → (i : ℕ) × (i < node.nentry)
        × (i ≢ idx)
        × (j ≤ i)
        × (i ≤ j + 1)
        × ((idx ≤ j) ↔ (i ≡ j + 1))
        × (get_kv out j ≡ get_kv node i)
  origin j q = elim (Bool-cases (ltb j idx)) [
    | inl less ↦
        (let l = ltb→lt j idx less in
          (
            j,
            omega arith,
            (λ e. omega arith),
            omega arith,
            omega arith,
            ((λ e. omega arith), (λ e. omega arith)),
            before j l,
          ))
    | inr not_less ↦
        (let more : idx ≤ j = ground arith in
          (
            j + 1,
            q,
            (λ e. omega arith),
            omega arith,
            omega arith,
            ((λ e. refl), (λ e. more)),
            behind j more q,
          ))
  ]

  out-IsNode : IsNode out
  out-IsNode = record {
    room = omega (arith, v.room, length-ins_kv-none node idx);
    ascending = λ a b p q.
        (let (i, hi, ni, li, ui, wi, ei) = origin a (omega arith) in
          let (j, hj, nj, lj, uj, wj, ej) = origin b (omega arith) in
          let less : i < j = origins_rise a b i j idx p li ui wi lj uj wj in
          omega (arith, ap (λ t. t.key) ei, ap (λ t. t.key) ej, v.ascending i j less hj));
  }

  removed-IsWithout : IsWithout node idx out
  removed-IsWithout = record {
    sound = out-IsNode;
    count = omega arith;
    map = λ key. elim (Bool-cases (key == key_at node idx)) [
      | inl t ↦ rw t (
          leaf_find-none out key out-IsNode (λ j k w.
            (let (i, hi, ni, li, ui, wi, ei) = origin j (omega arith) in
              ni (
                IsNode-unique node v i idx hi h (
                  ap (λ x. x.key) (sym ei)
                  ∙ sym w
                  ∙ (let e : key ≡ key_at node idx = ground arith in e))))))
      | inr t ↦ rw t (elim (key_cases node key v) [
        | inl (j, k, at) ↦
            kept key j k at (λ w. (let u = ap (key_at node) w in ground arith))
            ∙ sym (leaf_find-at node v j key _ k (sym at) refl)
        | inr absent ↦
            leaf_find-none out key out-IsNode (λ j k w.
              (let (i, hi, ni, li, ui, wi, ei) = origin j (omega arith) in
                absent i hi (w ∙ ap (λ x. x.key) ei)))
            ∙ sym (leaf_find-none node key v absent)
      ])
    ];
  }
    where
      kept :
          (key j : ℕ)
          → j < node.nentry
          → key ≡ key_at node j
          → j ≢ idx
          → leaf_find out key ≡ some (get_kv node j).value
      kept key j k at ne = elim (Bool-cases (ltb j idx)) [
        | inl less ↦
            (let e = before j (ltb→lt j idx less) in
              leaf_find-at out out-IsNode j key _ (omega (arith, ltb→lt j idx less))
                (ap (λ x. x.key) e ∙ sym at) (ap (λ x. x.value) e))
        | inr not_less ↦
            (let more : idx < j = ground arith in
              let on : j - 1 + 1 ≡ j = omega arith in
              let e = behind (j - 1) (omega arith) (omega arith) ∙ ap (get_kv node) on in
              leaf_find-at out out-IsNode (j - 1) key _ (omega arith) (ap (λ x. x.key) e ∙ sym at)
                (ap (λ x. x.value) e))
      ]

-- What `_btree_remove_entry` leaves, by what it returns.
abbrev pub Removes : Bnode → ℕ → Option ℕ × Bnode → Type 0
Removes node key (none, out) = (out ≡ node) × Finds node key none
Removes node key (some idx, out) = IsLast node key idx × IsWithout node idx out

-- `_btree_remove_entry` removes the last entry whose key is not above the given one, also if its
-- key is another, and leaves all other entries; if all keys are above, it leaves the node alone.
pub btree_remove_entry-Removes :
    (node : Bnode) (key : ℕ) → IsNode node → Removes node key (btree_remove_entry node key)
unfolding btree_remove_entry remove_found
btree_remove_entry-Removes node key v = elim (Bool-cases (node.nentry == 0)) [
  | inl empty ↦ rw empty (refl, λ j h. absurd (ground arith))
  | inr some_entry ↦
      rw some_entry (removed (btree_find_entry node key) (btree_find_entry-Finds node key v))
]
  where
    removed : (o : Option ℕ) → Finds node key o → Removes node key (remove_found node o)
    removed none f = (refl, f)
    removed (some idx) f = (f, removed-IsWithout node idx v f.inside)
