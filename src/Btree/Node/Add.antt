-- ===== src/Btree/Node/Add.antt =====
-- `_btree_add_entry` on the map that a node stands for.
use forestdb.Btree.Node.{Entry, Bnode, get_kv, insert_at, ltb, some}
use forestdb.Btree.Node.Sorted.{key_at, IsNode}
use forestdb.Btree.Node.Moves.{get_kv-insert_at, length-insert_at}
use forestdb.Btree.Node.Lookup.{leaf_find-at, key_cases, leaf_find, leaf_find-none}
use forestdb.Common.{
  ℕ, ◌≤◌, ◌≡◌, ◌<◌, length, ◌+◌, ap, refl, ◌∙◌, ◌-◌, if◌then◌else◌, arith, ◌==◌, Bool-cases, ltb,
  some, inl, ltb→lt, inr, ◌≢◌, sym,
}

-- Where an entry with a new key belongs.
pub record IsPlace (node : Bnode) (key idx : ℕ) : Type 0 where
  pub inside : idx ≤ node.nentry
  pub before : (j : ℕ) → j < idx → key_at node j < key
  pub behind : (j : ℕ) → idx ≤ j → j < node.nentry → key < key_at node j

nentry-insert_at :
    (node : Bnode) (idx : ℕ) (e : Entry) → (insert_at node idx e).nentry ≡ node.nentry + 1
unfolding insert_at
nentry-insert_at node idx e = refl

module _ (node : Bnode) (e : Entry) (idx : ℕ) (v : IsNode node)
    (room : node.nentry < length node.kvs) (p : IsPlace node e.key idx) where
  abbrev out : Bnode
  out = insert_at node idx e

  entry_before : (j : ℕ) → j < idx → get_kv out j ≡ get_kv node j
  entry_before j h =
      get_kv-insert_at node idx e j p.inside room (omega (arith, p.inside)) ∙ ground arith

  entry_here : get_kv out idx ≡ e
  entry_here = get_kv-insert_at node idx e idx p.inside room p.inside ∙ ground arith

  entry_behind : (j : ℕ) → idx < j → j ≤ node.nentry → get_kv out j ≡ get_kv node (j - 1)
  entry_behind j h k = get_kv-insert_at node idx e j p.inside room k ∙ ground arith

  -- The keys around the place, by where an index stands.
  low : (j : ℕ) → j < idx → (key_at out j ≡ key_at node j) × (key_at node j < e.key)
  low j h = (ap (λ t. t.key) (entry_before j h), p.before j h)

  high :
      (j : ℕ)
      → idx < j
      → j ≤ node.nentry
      → (key_at out j ≡ key_at node (j - 1)) × (e.key < key_at node (j - 1))
  high j h k = (ap (λ t. t.key) (entry_behind j h k), p.behind (j - 1) (omega arith) (omega arith))

  pub insert_at-IsNode : IsNode out
  insert_at-IsNode = record {
    room = omega (arith, length-insert_at node idx e, nentry-insert_at node idx e);
    ascending = λ i j h k.
        (let k' : j ≤ node.nentry = omega (arith, nentry-insert_at node idx e) in
          let here : key_at out idx ≡ e.key = ap (λ t. t.key) entry_here in
          elim (Bool-cases (ltb j idx)) [
            | inl less ↦
                (let l = ltb→lt j idx less in
                  omega (
                    arith,
                    low i (omega arith),
                    low j l,
                    v.ascending i j h (omega (arith, p.inside)),
                  ))
            | inr not_less ↦ elim (Bool-cases (j == idx)) [
              | inl same ↦
                  (let at : j ≡ idx = ground arith in
                    omega (arith, ap (key_at out) at, here, low i (omega arith)))
              | inr other ↦
                  (let more : idx < j = ground arith in
                    elim (Bool-cases (ltb i idx)) [
                      | inl less ↦ omega (arith, low i (ltb→lt i idx less), high j more k')
                      | inr not_before ↦ elim (Bool-cases (i == idx)) [
                        | inl same ↦
                            (let at : i ≡ idx = ground arith in
                              omega (arith, ap (key_at out) at, here, high j more k'))
                        | inr apart ↦
                            (let far : idx < i = ground arith in
                              omega (
                                arith,
                                high i far (omega arith),
                                high j more k',
                                v.ascending (i - 1) (j - 1) (omega arith) (omega arith),
                              ))
                      ]
                    ])
            ]
          ]);
  }

  kept :
      (key i : ℕ)
      → i < node.nentry
      → key ≡ key_at node i
      → leaf_find out key ≡ some (get_kv node i).value
  kept key i h at = elim (Bool-cases (ltb i idx)) [
    | inl less ↦
        (let l = ltb→lt i idx less in
          leaf_find-at out insert_at-IsNode i key _ (omega (arith, nentry-insert_at node idx e))
            (ap (λ t. t.key) (entry_before i l) ∙ sym at) (ap (λ t. t.value) (entry_before i l)))
    | inr not_less ↦
        (let more : idx < i + 1 = ground arith in
          let back : i + 1 - 1 ≡ i = omega arith in
          let moved = entry_behind (i + 1) more (omega arith) ∙ ap (get_kv node) back in
          leaf_find-at out insert_at-IsNode (i + 1) key _
            (omega (arith, nentry-insert_at node idx e)) (ap (λ t. t.key) moved ∙ sym at)
            (ap (λ t. t.value) moved))
  ]

  missing :
      (key : ℕ)
      → ((i : ℕ) → i < node.nentry → key ≢ key_at node i)
      → key ≢ e.key
      → (j : ℕ) → j < out.nentry
      → key ≢ key_at out j
  missing key absent ne j h at = elim (Bool-cases (ltb j idx)) [
    | inl less ↦
        (let l = ltb→lt j idx less in
          absent j (omega (arith, p.inside)) (at ∙ ap (λ t. t.key) (entry_before j l)))
    | inr not_less ↦ elim (Bool-cases (j == idx)) [
      | inl same ↦
          (let here : j ≡ idx = ground arith in
            ne (at ∙ ap (key_at out) here ∙ ap (λ t. t.key) entry_here))
      | inr apart ↦
          (let more : idx < j = ground arith in
            let k : j ≤ node.nentry = omega (arith, nentry-insert_at node idx e) in
            absent (j - 1) (omega arith) (at ∙ ap (λ t. t.key) (entry_behind j more k)))
    ]
  ]

  -- The map after an insertion.
  pub insert_at-leaf_find :
      (key : ℕ) → leaf_find out key ≡ (if key == e.key then some e.value else leaf_find node key)
  insert_at-leaf_find key = elim (Bool-cases (key == e.key)) [
    | inl same ↦ rw same (
        let at : e.key ≡ key = ground arith in
        leaf_find-at out insert_at-IsNode idx key e.value
          (omega (arith, p.inside, nentry-insert_at node idx e)) (ap (λ t. t.key) entry_here ∙ at)
          (ap (λ t. t.value) entry_here))
    | inr other ↦ rw other (elim (key_cases node key v) [
      | inl (i, h, at) ↦ kept key i h at ∙ sym (leaf_find-at node v i key _ h (sym at) refl)
      | inr absent ↦
          leaf_find-none out key insert_at-IsNode (λ j h. missing key absent (ground arith) j h)
          ∙ sym (leaf_find-none node key v absent)
    ])
  ]
