-- ===== src/Btree/Node/Sorted.antt =====
-- `_btree_find_entry` finds the last entry that is not above the key.
use forestdb.Btree.Node.{Bnode, get_kv, search_loop, btree_find_entry, Option, suc, some, ltb, leb}
use forestdb.Common.{
  ℕ, ◌≤◌, ◌≡◌, ◌<◌, Option, ◌+◌, length, arith, none, ltb, Bool-cases, false, inr, zero, inl, refl,
  ◌/◌, ◌==◌, ap, ltb→lt, leb, ◌-◌,
}

abbrev pub key_at : Bnode → ℕ → ℕ
key_at node i = (get_kv node i).key

-- The keys in use ascend strictly, and the array has room for them.
pub record IsNode (node : Bnode) : Type 0 where
  pub room : node.nentry ≤ length node.kvs
  pub ascending : (i j : ℕ) → i < j → j < node.nentry → key_at node i < key_at node j

-- `i` is the last entry whose key is not above `key`.
pub record IsLast (node : Bnode) (key i : ℕ) : Type 0 where
  pub inside : i < node.nentry
  pub not_above : key_at node i ≤ key
  pub above : (j : ℕ) → i < j → j < node.nentry → key < key_at node j

-- What `btree_find_entry` returns.
abbrev pub Finds : Bnode → ℕ → Option ℕ → Type 0
Finds node key none = (j : ℕ) → j < node.nentry → key < key_at node j
Finds node key (some i) = IsLast node key i

-- The search has ended, and found the entry.
abbrev IsFound : Bnode → ℕ → Option ℕ → Type 0
IsFound node key none = ⊥
IsFound node key (some i) = IsLast node key i

IsFound-Finds : (node : Bnode) (key : ℕ) (o : Option ℕ) → IsFound node key o → Finds node key o
IsFound-Finds node key none h = absurd h
IsFound-Finds node key (some i) h = h

pub rises :
    (node : Bnode)
    → IsNode node
    → (i j : ℕ) → i ≤ j
    → j < node.nentry
    → key_at node i ≤ key_at node j
rises node v i j h k = elim (Bool-cases (i == j)) [
  | inl e ↦ let same : i ≡ j = ground arith in omega (arith, ap (key_at node) same)
  | inr e ↦ let less : i < j = ground arith in omega (arith, v.ascending i j less k)
]

stop_at : (fuel : ℕ) (node : Bnode) (key m : ℕ) → 0 < fuel → search_loop fuel node key m 0 ≡ some m
unfolding search_loop
stop_at zero node key m h = absurd (omega arith)
stop_at (suc fuel) node key m h = let stop : ltb (m + 1) 0 ≡ false = ground arith in rw stop refl

search_loop-IsLast :
    (fuel : ℕ) (node : Bnode) (key start end : ℕ)
    → IsNode node
    → end ≤ start + fuel
    → start < end
    → end ≤ node.nentry
    → key_at node start ≤ key
    → ((j : ℕ) → end ≤ j → j < node.nentry → key < key_at node j)
    → IsFound node key (search_loop fuel node key start end)
unfolding search_loop
search_loop-IsLast zero node key start end v f h k low high = absurd (omega arith)
search_loop-IsLast (suc fuel) node key start end v f h k low high =
    elim (Bool-cases (ltb (start + 1) end)) [
      | inr e ↦ rw e (record {
        inside = omega arith;
        not_above = low;
        above = λ j p q. high j (ground arith) q;
      })
      | inl e ↦
          let m = (start + end) / 2 in
          let bounds : (start < m) × (m < end) = ground arith in
          elim (Bool-cases (ltb key (key_at node m))) [
            | inl less ↦
                rw (e, less)
                  (search_loop-IsLast fuel node key start m v (omega arith) (omega arith)
                    (omega arith) low
                    (λ j p q. omega (arith, rises node v m j p q, ltb→lt key (key_at node m) less)))
            | inr not_less ↦ elim (Bool-cases (key == key_at node m)) [
              | inl same ↦
                  rw (e, not_less, same, stop_at fuel node key m (omega arith))
                    (let at : key ≡ key_at node m = ground arith in
                      record {
                        inside = omega arith;
                        not_above = omega arith;
                        above = λ j p q. omega (arith, v.ascending m j p q);
                      })
              | inr other ↦
                  rw (e, not_less, other)
                    (search_loop-IsLast fuel node key m end v (omega arith) (omega arith) k
                      (ground arith) high)
            ]
          ]
    ]

-- In a node whose keys ascend strictly, `_btree_find_entry` returns the last entry whose key is not
-- above the given one, and `BTREE_IDX_NOT_FOUND` only if all keys are above it. A binary search that
-- did not end within as many rounds as there are entries would be none too, for a key that is not
-- below the first, so it ends.
pub btree_find_entry-Finds :
    (node : Bnode) (key : ℕ) → IsNode node → Finds node key (btree_find_entry node key)
unfolding btree_find_entry
btree_find_entry-Finds node key v = elim (Bool-cases (node.nentry == 0)) [
  | inl empty ↦ rw empty (λ j h. absurd (ground arith))
  | inr some_entry ↦ elim (Bool-cases (ltb key (key_at node 0))) [
    | inl below ↦
        rw (some_entry, below)
          (λ j h. omega (arith, rises node v 0 j (omega arith) h, ltb→lt key (key_at node 0) below))
    | inr not_below ↦ elim (Bool-cases (leb (key_at node (node.nentry - 1)) key)) [
      | inl last ↦
          rw (some_entry, not_below, last)
            (record {
              inside = ground arith;
              not_above = ground arith;
              above = λ j p q. absurd (omega arith);
            })
      | inr inner ↦
          rw (some_entry, not_below, inner)
            (IsFound-Finds node key (search_loop node.nentry node key 0 node.nentry) (
              search_loop-IsLast node.nentry node key 0 node.nentry v (omega arith) (ground arith)
                (omega arith) (ground arith) (λ j p q. absurd (omega arith))))
    ]
  ]
]
