-- ===== src/Btree/Node/Moves.antt =====
-- Where the entries are after `_ins_kv` and `_set_kv`.
use forestdb.Btree.Node.{
  Entry, Bnode, no_entry, get_kv, set_kv, move_up, move_down, ins_kv, insert_at, List, get_or, suc,
  ltb, leb, set, none,
}
use forestdb.Common.{
  ℕ, List, ◌+◌, length, ◌≡◌, ◌<◌, get_or, ◌∙◌, if◌then◌else◌, length-set, ltb, ◌-◌, zero, ◌&&◌, leb,
  refl, false, arith, set, ◌≤◌, none, Bool-cases, inl, ◌==◌, inr, get_or-set, ap,
}

length-move_up : (kvs : List Entry) (from n : ℕ) → length (move_up kvs from n) ≡ length kvs
unfolding move_up
length-move_up kvs from zero = refl
length-move_up kvs from (suc n) =
    length-move_up (set kvs (from + n + 1) (get_or kvs (from + n) no_entry)) from n
    ∙ length-set kvs (from + n + 1) (get_or kvs (from + n) no_entry)

get_or-move_up :
    (kvs : List Entry) (from n j : ℕ)
    → from + n < length kvs
    → get_or (move_up kvs from n) j no_entry ≡ (
        if ltb from j && leb j (from + n)
        then get_or kvs (j - 1) no_entry
        else get_or kvs j no_entry)
unfolding move_up
get_or-move_up kvs from zero j h =
    let never : (ltb from j && leb j (from + 0)) ≡ false = ground arith in rw never refl
get_or-move_up kvs from (suc n) j h =
    let at = from + n + 1 in
    let v = get_or kvs (from + n) no_entry in
    get_or-move_up (set kvs at v) from n j (omega (arith, length-set kvs at v))
    ∙ elim (Bool-cases (j == at)) [
      | inl e ↦
          let back : j - 1 ≡ from + n = ground arith in
          ground (arith, get_or-set kvs at j v no_entry, ap (λ t. get_or kvs t no_entry) back)
      | inr e ↦ ground (arith, get_or-set kvs at j v no_entry, get_or-set kvs at (j - 1) v no_entry)
    ]

length-move_down : (kvs : List Entry) (from n : ℕ) → length (move_down kvs from n) ≡ length kvs
unfolding move_down
length-move_down kvs from zero = refl
length-move_down kvs from (suc n) =
    length-move_down (set kvs (from - 1) (get_or kvs from no_entry)) (from + 1) n
    ∙ length-set kvs (from - 1) (get_or kvs from no_entry)

get_or-move_down :
    (kvs : List Entry) (from n j : ℕ)
    → 0 < from
    → from + n ≤ length kvs
    → get_or (move_down kvs from n) j no_entry ≡ (
        if leb from (j + 1) && ltb (j + 1) (from + n)
        then get_or kvs (j + 1) no_entry
        else get_or kvs j no_entry)
unfolding move_down
get_or-move_down kvs from zero j p h =
    let never : (leb from (j + 1) && ltb (j + 1) (from + 0)) ≡ false = ground arith in rw never refl
get_or-move_down kvs from (suc n) j p h =
    let v = get_or kvs from no_entry in
    get_or-move_down (set kvs (from - 1) v) (from + 1) n j (omega arith)
      (omega (arith, length-set kvs (from - 1) v))
    ∙ elim (Bool-cases (j == from - 1)) [
      | inl e ↦
          let on : j + 1 ≡ from = ground arith in
          ground (arith, get_or-set kvs (from - 1) j v no_entry, ap (λ t. get_or kvs t no_entry) on)
      | inr e ↦ ground (
        arith,
        get_or-set kvs (from - 1) j v no_entry,
        get_or-set kvs (from - 1) (j + 1) v no_entry,
      )
    ]

-- An insertion puts the entry at its index and moves those from there on up by one.
pub get_kv-insert_at :
    (node : Bnode) (idx : ℕ) (e : Entry) (j : ℕ)
    → idx ≤ node.nentry
    → node.nentry < length node.kvs
    → j ≤ node.nentry
    → get_kv (insert_at node idx e) j
      ≡ (if ltb j idx then get_kv node j else if j == idx then e else get_kv node (j - 1))
unfolding insert_at ins_kv set_kv
get_kv-insert_at node idx e j h k p = elim (Bool-cases (ltb idx node.nentry)) [
  | inl inner ↦
      let n = node.nentry - idx in
      let moved = move_up node.kvs idx n in
      rw inner (
        ground (
          arith,
          get_or-set moved idx j e no_entry,
          length-move_up node.kvs idx n,
          get_or-move_up node.kvs idx n j,
        ))
  | inr at_end ↦ rw at_end (ground (arith, get_or-set node.kvs idx j e no_entry))
]

pub length-insert_at :
    (node : Bnode) (idx : ℕ) (e : Entry) → length (insert_at node idx e).kvs ≡ length node.kvs
unfolding insert_at ins_kv set_kv
length-insert_at node idx e = elim (Bool-cases (ltb idx node.nentry)) [
  | inl inner ↦ rw inner (
      length-set (move_up node.kvs idx (node.nentry - idx)) idx e
      ∙ length-move_up node.kvs idx (node.nentry - idx))
  | inr at_end ↦ rw at_end (length-set node.kvs idx e)
]

-- A removal moves those behind the index down by one.
pub get_kv-ins_kv-none :
    (node : Bnode) (idx j : ℕ)
    → idx < node.nentry
    → node.nentry ≤ length node.kvs
    → j + 1 < node.nentry
    → get_kv (ins_kv node idx none) j ≡ (if ltb j idx then get_kv node j else get_kv node (j + 1))
unfolding ins_kv
get_kv-ins_kv-none node idx j h k p =
    ground (arith, get_or-move_down node.kvs (idx + 1) (node.nentry - (idx + 1)) j)

pub length-ins_kv-none :
    (node : Bnode) (idx : ℕ) → length (ins_kv node idx none).kvs ≡ length node.kvs
unfolding ins_kv
length-ins_kv-none node idx = length-move_down node.kvs (idx + 1) (node.nentry - (idx + 1))
