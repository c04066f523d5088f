-- ===== src/Btree/Split/Shares.antt =====
-- A split keeps every entry, in order and in nearly equal shares.
use forestdb.Btree.Node.{Entry, Bnode, no_entry, get_kv, get_nth_idx}
use forestdb.Btree.Split.{
  copy_entries, copy_kv, split_count, split_part, List, arith, get_or, suc, set,
}
use forestdb.Common.{
  ℕ, List, ◌<◌, ◌≡◌, ◌/◌, ◌-◌, ◌*◌, ◌%◌, ◌+◌, ◌≤◌, if◌then◌else◌, arith, ltb, length, get_or, refl,
  leb, ◌&&◌, false, set, length-set, ◌∙◌, Bool-cases, ◌==◌, inl, get_or-set, ap, inr, zero, sym,
  true, lt→ltb,
}
use native.Mathlib.Nat.{mod-lt, div-add-mod'}

module _ (node : Bnode) (nnode : ℕ) (pos : 0 < nnode) where
  abbrev quot : ℕ
  quot = node.nentry / nnode

  rest : ℕ
  rest = node.nentry % nnode

  rest_lem :
      (node.nentry - quot * nnode ≡ rest) × (rest < nnode) × (quot * nnode + rest ≡ node.nentry)
  unfolding rest
  rest_lem = (
    omega (arith, div-add-mod' node.nentry nnode),
    mod-lt node.nentry pos,
    div-add-mod' node.nentry nnode,
  )

  get_nth_idx_lem : (j : ℕ) → get_nth_idx node j nnode ≡ quot * j + (if ltb j rest then j else rest)
  unfolding get_nth_idx
  get_nth_idx_lem j = rw (rest_lem.0) refl

  step : (j : ℕ) → quot * (j + 1) ≡ quot * j + quot
  step j = grind arith

  split_count_lem : (j : ℕ) → split_count node nnode j ≡ quot + (if ltb j rest then 1 else 0)
  unfolding split_count
  split_count_lem j = ground (arith, get_nth_idx_lem j, get_nth_idx_lem (j + 1), step j)

copy_entries_lem :
    (dst : List Entry) (dst_idx : ℕ) (src : List Entry) (src_idx len i : ℕ)
    → dst_idx + len ≤ length dst
    → get_or (copy_entries dst dst_idx src src_idx len) i no_entry ≡ (
        if leb dst_idx i && ltb i (dst_idx + len)
        then get_or src (src_idx + (i - dst_idx)) no_entry
        else get_or dst i no_entry)
unfolding copy_entries
copy_entries_lem dst dst_idx src src_idx zero i h =
    let never : (leb dst_idx i && ltb i (dst_idx + 0)) ≡ false = ground arith in rw never refl
copy_entries_lem dst dst_idx src src_idx (suc len) i h =
    let v = get_or src src_idx no_entry in
    copy_entries_lem (set dst dst_idx v) (dst_idx + 1) src (src_idx + 1) len i
      (omega (arith, length-set dst dst_idx v))
    ∙ elim (Bool-cases (i == dst_idx)) [
      | inl e ↦
          let start : src_idx + (i - dst_idx) ≡ src_idx = ground arith in
          ground (arith, get_or-set dst dst_idx i v no_entry, ap (λ t. get_or src t no_entry) start)
      | inr e ↦ elim (Bool-cases (leb dst_idx i)) [
        | inl more ↦
            let shift : src_idx + 1 + (i - (dst_idx + 1)) ≡ src_idx + (i - dst_idx) =
              ground arith in
            ground
              (arith, get_or-set dst dst_idx i v no_entry, ap (λ t. get_or src t no_entry) shift)
        | inr less ↦ ground (arith, get_or-set dst dst_idx i v no_entry)
      ]
    ]

nentry_split_part :
    (node : Bnode) (nnode : ℕ) (fresh : Bnode) (j : ℕ)
    → (split_part node nnode fresh j).nentry ≡ split_count node nnode j
unfolding split_part
nentry_split_part node nnode fresh j = elim (Bool-cases (j == 0)) [
  | inl e ↦ (let at : j ≡ 0 = ground arith in rw e (ap (split_count node nnode) (sym at)))
  | inr e ↦ rw e refl
]

split_entries :
    (node : Bnode) (nnode : ℕ) (fresh : Bnode)
    → 0 < nnode
    → node.nentry / nnode + 1 ≤ length fresh.kvs
    → (j i : ℕ) → i < (split_part node nnode fresh j).nentry
    → get_kv (split_part node nnode fresh j) i ≡ get_kv node (get_nth_idx node j nnode + i)
unfolding split_part copy_kv
split_entries node nnode fresh pos room j i h = elim (Bool-cases (j == 0)) [
  | inl e ↦
      (let at : j ≡ 0 = ground arith in
        let start : get_nth_idx node j nnode ≡ 0 =
          ground (arith, get_nth_idx_lem node nnode pos j, rest_lem node nnode pos) in
        rw (e, start) (ap (get_kv node) (let zero_plus : i ≡ 0 + i = omega arith in zero_plus)))
  | inr e ↦ rw e (
      copy_entries_lem fresh.kvs 0 node.kvs (get_nth_idx node j nnode) (split_count node nnode j) i
        (ground (arith, split_count_lem node nnode pos j))
      ∙ (let inside : ltb i (split_count node nnode j) ≡ true =
            lt→ltb _ _ (omega (arith, nentry_split_part node nnode fresh j)) in
          ground (arith, inside)))
]

-- What a split of a node into `nnode` nodes gives.
pub record Shares (node : Bnode) (nnode : ℕ) (fresh : Bnode) : Type 0 where
  pub first : get_nth_idx node 0 nnode ≡ 0
  pub last : get_nth_idx node nnode nnode ≡ node.nentry
  pub next :
      (j : ℕ)
      → get_nth_idx node (j + 1) nnode
        ≡ get_nth_idx node j nnode + (split_part node nnode fresh j).nentry
  pub even :
      (j : ℕ)
      → (node.nentry / nnode ≤ (split_part node nnode fresh j).nentry)
        × ((split_part node nnode fresh j).nentry ≤ node.nentry / nnode + 1)
  pub same :
      (j i : ℕ)
      → i < (split_part node nnode fresh j).nentry
      → get_kv (split_part node nnode fresh j) i ≡ get_kv node (get_nth_idx node j nnode + i)

-- When `_btree_split_node` shares a node among `nnode` nodes, with room in the new ones, the parts
-- hold all entries one after the other, and the numbers of entries differ by at most one.
pub split_part-Shares :
    (node : Bnode) (nnode : ℕ) (fresh : Bnode)
    → 0 < nnode
    → node.nentry / nnode + 1 ≤ length fresh.kvs
    → Shares node nnode fresh
split_part-Shares node nnode fresh pos room = record {
  first = ground (arith, get_nth_idx_lem node nnode pos 0);
  last = ground (arith, get_nth_idx_lem node nnode pos nnode, rest_lem node nnode pos);
  next = λ j. ground (
    arith,
    nentry_split_part node nnode fresh j,
    split_count_lem node nnode pos j,
    get_nth_idx_lem node nnode pos j,
    get_nth_idx_lem node nnode pos (j + 1),
    step node nnode pos j,
  );
  even =
      λ j. ground (arith, nentry_split_part node nnode fresh j, split_count_lem node nnode pos j);
  same = split_entries node nnode fresh pos room;
}
