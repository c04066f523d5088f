-- ===== src/Btree/Node/Put.antt =====
-- `_btree_add_entry` as an update of the map that a node stands for.
use forestdb.Btree.Node.{
  Entry, Bnode, no_entry, get_kv, set_kv, insert_at, btree_find_entry, btree_add_entry, add_found,
  Option, some,
}
use forestdb.Btree.Node.Sorted.{key_at, rises, IsNode, Finds, btree_find_entry-Finds}
use forestdb.Btree.Node.Lookup.{leaf_find, leaf_find-at, leaf_find-none, key_cases}
use forestdb.Btree.Node.Add.{IsPlace, insert_at-IsNode, insert_at-leaf_find}
use forestdb.Common.{
  none, some, ℕ, ◌≡◌, ◌<◌, ◌≢◌, Bool-cases, arith, if◌then◌else◌, length, ◌∙◌, length-set, Option,
  ◌==◌, inl, get_or-set, refl, ap, sym, inr, ◌+◌,
}

-- The node is in order, and holds the entry beside what it held under other keys.
pub record IsPut (node : Bnode) (e : Entry) (out : Bnode) : Type 0 where
  pub sound : IsNode out
  pub map :
      (key : ℕ) → leaf_find out key ≡ (if key == e.key then some e.value else leaf_find node key)

get_kv-set_kv :
    (node : Bnode) (i j : ℕ) (e : Entry)
    → i < length node.kvs
    → get_kv (set_kv node i e) j ≡ (if i == j then e else get_kv node j)
unfolding set_kv
get_kv-set_kv node i j e h = get_or-set node.kvs i j e no_entry h

set_kv_shape :
    (node : Bnode) (i : ℕ) (e : Entry)
    → ((set_kv node i e).nentry ≡ node.nentry) × (length (set_kv node i e).kvs ≡ length node.kvs)
unfolding set_kv
set_kv_shape node i e = (refl, length-set node.kvs i e)

module _ (node : Bnode) (e : Entry) (i : ℕ) (v : IsNode node) (h : i < node.nentry)
    (same : e.key ≡ key_at node i) where
  abbrev out : Bnode
  out = set_kv node i e

  here : get_kv out i ≡ e
  here = get_kv-set_kv node i i e (omega (arith, v.room)) ∙ ground arith

  elsewhere : (j : ℕ) → j ≢ i → get_kv out j ≡ get_kv node j
  elsewhere j ne = get_kv-set_kv node i j e (omega (arith, v.room)) ∙ ground arith

  same_keys : (j : ℕ) → key_at out j ≡ key_at node j
  same_keys j = elim (Bool-cases (j == i)) [
    | inl t ↦
        (let at : j ≡ i = ground arith in
          ap (key_at out) at ∙ ap (λ x. x.key) here ∙ same ∙ ap (key_at node) (sym at))
    | inr t ↦ ap (λ x. x.key) (elsewhere j (λ at. ground arith))
  ]

  set_kv-IsNode : IsNode out
  set_kv-IsNode = record {
    room = omega (arith, v.room, set_kv_shape node i e);
    ascending = λ a b p q.
        omega (
          arith,
          same_keys a,
          same_keys b,
          v.ascending a b p (omega (arith, set_kv_shape node i e)),
        );
  }

  set_kv-IsPut : IsPut node e out
  set_kv-IsPut = record {
    sound = set_kv-IsNode;
    map = λ key. elim (Bool-cases (key == e.key)) [
      | inl t ↦ rw t (
          let at : e.key ≡ key = ground arith in
          leaf_find-at out set_kv-IsNode i key e.value (omega (arith, set_kv_shape node i e))
            (ap (λ x. x.key) here ∙ at) (ap (λ x. x.value) here))
      | inr t ↦ rw t (elim (key_cases node key v) [
        | inl (j, k, at) ↦
            (let apart : j ≢ i = λ w. (let u = ap (key_at node) w in ground arith) in
              leaf_find-at out set_kv-IsNode j key _ (omega (arith, set_kv_shape node i e))
                (same_keys j ∙ sym at) (ap (λ x. x.value) (elsewhere j apart))
              ∙ sym (leaf_find-at node v j key _ k (sym at) refl))
        | inr absent ↦
            leaf_find-none out key set_kv-IsNode
              (λ j k w. absent j (omega (arith, set_kv_shape node i e)) (w ∙ same_keys j))
            ∙ sym (leaf_find-none node key v absent)
      ])
    ];
  }

insert_at-IsPut :
    (node : Bnode) (e : Entry) (idx : ℕ)
    → IsNode node
    → node.nentry < length node.kvs
    → IsPlace node e.key idx
    → IsPut node e (insert_at node idx e)
insert_at-IsPut node e idx v room p = record {
  sound = insert_at-IsNode node e idx v room p;
  map = insert_at-leaf_find node e idx v room p;
}

-- With room for one more entry, `_btree_add_entry` leaves a node in order in which the key has the
-- new value and every other key has the value that it had, or none.
pub btree_add_entry-IsPut :
    (node : Bnode) (e : Entry)
    → IsNode node
    → node.nentry < length node.kvs
    → IsPut node e (btree_add_entry node e).1
unfolding btree_add_entry add_found
btree_add_entry-IsPut node e v room = elim (Bool-cases (node.nentry == 0)) [
  | inl empty ↦ rw empty (
      insert_at-IsPut node e 0 v room (record {
        inside = omega arith;
        before = λ j h. absurd (omega arith);
        behind = λ j h k. absurd (ground arith);
      }))
  | inr some_entry ↦
      rw some_entry (put (btree_find_entry node e.key) (btree_find_entry-Finds node e.key v))
]
  where
    put : (o : Option ℕ) → Finds node e.key o → IsPut node e (add_found node e o).1
    put none f = insert_at-IsPut node e 0 v room (record {
      inside = omega arith;
      before = λ j h. absurd (omega arith);
      behind = λ j h k. f j k;
    })
    put (some idx) f = elim (Bool-cases (e.key == key_at node idx)) [
      | inl t ↦ rw t (set_kv-IsPut node e idx v f.inside (ground arith))
      | inr t ↦ rw t (
          insert_at-IsPut node e (idx + 1) v room (record {
            inside = omega (arith, f.inside);
            before = λ j h.
                (let apart : e.key ≢ key_at node idx = ground arith in
                  omega (arith, rises node v j idx (omega arith) f.inside, f.not_above));
            behind = λ j h k. f.above j (omega arith) k;
          }))
    ]
