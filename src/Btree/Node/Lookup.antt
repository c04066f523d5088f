-- ===== src/Btree/Node/Lookup.antt =====
-- Looking up a key in a node, as `btree_find` does in a leaf.
use forestdb.Btree.Node.{Bnode, get_kv, btree_find_entry, Option, some, none, ltb, at_leaf}
use forestdb.Btree.Node.Sorted.{key_at, IsNode, Finds, btree_find_entry-Finds}
use forestdb.Common.{
  ℕ, Option, ◌<◌, ◌≡◌, ◌≢◌, none, some, Bool-cases, ltb, inl, ◌==◌, arith, refl, ltb→lt, inr, true,
  ap, ◌⊎◌, sym, ◌∙◌,
}

-- What a leaf answers for a key, by `_btree_find_entry` and the comparison of `btree_find`.
unfoldable pub leaf_find : Bnode → ℕ → Option ℕ
leaf_find node key = at_leaf node key (btree_find_entry node key)

pub IsNode-unique :
    (node : Bnode)
    → IsNode node
    → (i j : ℕ) → i < node.nentry
    → j < node.nentry
    → key_at node i ≡ key_at node j
    → i ≡ j
IsNode-unique node v i j h k e = elim (Bool-cases (ltb i j)) [
  | inl less ↦ absurd (omega (arith, v.ascending i j (ltb→lt i j less) k))
  | inr not_less ↦ elim (Bool-cases (ltb j i)) [
    | inl less ↦ absurd (omega (arith, v.ascending j i (ltb→lt j i less) h))
    | inr not_more ↦ ground arith
  ]
]

-- An entry in use is found under its key.
pub leaf_find-entry :
    (node : Bnode)
    → IsNode node
    → (i : ℕ) → i < node.nentry
    → leaf_find node (key_at node i) ≡ some (get_kv node i).value
unfolding leaf_find
leaf_find-entry node v i h =
    found (btree_find_entry node (key_at node i)) (btree_find_entry-Finds node (key_at node i) v)
  where
    found :
        (o : Option ℕ)
        → Finds node (key_at node i) o
        → at_leaf node (key_at node i) o ≡ some (get_kv node i).value
    found none f = absurd (omega (arith, f i h))
    found (some j) f = elim (Bool-cases (i == j)) [
      | inl e ↦
          (let same : j ≡ i = ground arith in
            let keys : (key_at node i == key_at node j) ≡ true =
              (let k = ap (key_at node) same in ground arith) in
            rw keys (ap (λ t. some (get_kv node t).value) same))
      | inr e ↦ absurd (elim (Bool-cases (ltb i j)) [
        | inl less ↦ omega (arith, v.ascending i j (ltb→lt i j less) f.inside, f.not_above)
        | inr not_less ↦ (let more : j < i = ground arith in omega (arith, f.above i more h))
      ])
    ]

-- A key that no entry has is not found.
pub leaf_find-none :
    (node : Bnode) (key : ℕ)
    → IsNode node
    → ((i : ℕ) → i < node.nentry → key ≢ key_at node i)
    → leaf_find node key ≡ none
unfolding leaf_find
leaf_find-none node key v ne = found (btree_find_entry node key) (btree_find_entry-Finds node key v)
  where
    found : (o : Option ℕ) → Finds node key o → at_leaf node key o ≡ none
    found none f = refl
    found (some j) f = ground (arith, ne j f.inside)

-- A key is that of an entry, or of none.
pub key_cases :
    (node : Bnode) (key : ℕ)
    → IsNode node
    → ((i : ℕ) × (i < node.nentry) × (key ≡ key_at node i))
      ⊎ ((i : ℕ) → i < node.nentry → key ≢ key_at node i)
key_cases node key v = found (btree_find_entry node key) (btree_find_entry-Finds node key v)
  where
    found :
        (o : Option ℕ)
        → Finds node key o
        → ((i : ℕ) × (i < node.nentry) × (key ≡ key_at node i))
          ⊎ ((i : ℕ) → i < node.nentry → key ≢ key_at node i)
    found none f = inr (λ i h e. omega (arith, f i h))
    found (some i) f = elim (Bool-cases (key == key_at node i)) [
      | inl e ↦ inl (i, f.inside, ground arith)
      | inr ne ↦ inr (λ j h e. elim (Bool-cases (j == i)) [
        | inl same ↦ (let at : j ≡ i = ground arith in let k = ap (key_at node) at in ground arith)
        | inr apart ↦ elim (Bool-cases (ltb j i)) [
          | inl less ↦ omega (arith, v.ascending j i (ltb→lt j i less) f.inside, f.not_above)
          | inr not_less ↦ (let more : i < j = ground arith in omega (arith, f.above j more h))
        ]
      ])
    ]

-- The same, under any name of the key.
pub leaf_find-at :
    (node : Bnode)
    → IsNode node
    → (i key value : ℕ) → i < node.nentry
    → key_at node i ≡ key
    → (get_kv node i).value ≡ value
    → leaf_find node key ≡ some value
leaf_find-at node v i key value h e w =
    ap (leaf_find node) (sym e) ∙ leaf_find-entry node v i h ∙ ap some w
