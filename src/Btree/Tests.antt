-- ===== src/Btree/Tests.antt =====
-- The theorems on nodes and on a tree of two levels.
use forestdb.Btree.Node.{
  Entry, Bnode, no_entry, get_kv, btree_find_entry, btree_add_entry, btree_remove_entry,
  search_loop,
}
use forestdb.Btree.Node.Sorted.{IsNode, Finds, btree_find_entry-Finds}
use forestdb.Btree.Node.Put.{IsPut, btree_add_entry-IsPut}
use forestdb.Btree.Node.Remove.{Removes, btree_remove_entry-Removes}
use forestdb.Btree.Split.Shares.{Shares, split_part-Shares}
use forestdb.Btree.Find.{btree_find}
use forestdb.Btree.Find.Refine.{Holds, IsTree, btree_find-Holds}
use forestdb.Common.{
  ℕ, ◌^◌, ◌∷◌, ◌≡◌, ◌<◌, if◌then◌else◌, ◌≤◌, arith, some, suc, ◌==◌, zero, [], ◌↔◌, refl,
}

abbrev entry : ℕ → ℕ → Entry
entry key value = record { key = key; value = value }

-- Two entries, and room for two more.
abbrev leaf : ℕ → ℕ → Bnode
leaf a b = record {
  flag = 0;
  level = 1;
  nentry = 2;
  kvs = entry a 100 ∷ entry b 200 ∷ no_entry ∷ no_entry ∷ [];
}

leaf-IsNode : (a b : ℕ) → a < b → IsNode (leaf a b)
leaf-IsNode a b h = record {
  room = omega arith;
  ascending = λ i j p q.
      (let first : i ≡ 0 = omega arith in let second : j ≡ 1 = omega arith in rw (first, second) h);
}

btree_find_entry-Finds_example : Finds (leaf 10 20) 15 (btree_find_entry (leaf 10 20) 15)
btree_find_entry-Finds_example =
    btree_find_entry-Finds (leaf 10 20) 15 (leaf-IsNode 10 20 (omega arith))

btree_add_entry-IsPut_example :
    IsPut (leaf 10 20) (entry 15 7) (btree_add_entry (leaf 10 20) (entry 15 7)).1
btree_add_entry-IsPut_example =
    btree_add_entry-IsPut (leaf 10 20) (entry 15 7) (leaf-IsNode 10 20 (omega arith)) (omega arith)

btree_remove_entry-Removes_example : Removes (leaf 10 20) 20 (btree_remove_entry (leaf 10 20) 20)
btree_remove_entry-Removes_example =
    btree_remove_entry-Removes (leaf 10 20) 20 (leaf-IsNode 10 20 (omega arith))

-- Key 15 is not there, and key 10 is removed.
removes_other : (btree_remove_entry (leaf 10 20) 15).0 ≡ some 0
unfolding btree_remove_entry btree_find_entry search_loop
removes_other = refl

split_part-Shares_example : Shares (leaf 10 20) 2 (leaf 0 0)
split_part-Shares_example = split_part-Shares (leaf 10 20) 2 (leaf 0 0) (omega arith) (omega arith)

-- Block 1 is the root, over the leaves in blocks 2 and 3.
abbrev root : Bnode
root = record { flag = 0; level = 2; nentry = 2; kvs = entry 10 2 ∷ entry 30 3 ∷ [] }

abbrev read : ℕ → Bnode
read bid = if bid == 1 then root else if bid == 2 then leaf 10 20 else leaf 30 40

leaf-range :
    (a b lo hi : ℕ)
    → lo ≤ a
    → a < b
    → b < hi
    → (i : ℕ) → i < 2
    → (lo ≤ (get_kv (leaf a b) i).key) × ((get_kv (leaf a b) i).key < hi)
leaf-range a b lo hi p q r zero h = (p, omega arith)
leaf-range a b lo hi p q r (suc zero) h = (omega arith, r)
leaf-range a b lo hi p q r (suc (suc i)) h = absurd (omega arith)

read-IsTree : IsTree read 1 1 0 (2 ^ 64)
read-IsTree = (
  record {
    room = omega arith;
    ascending = λ i j p q.
        (let first : i ≡ 0 = omega arith in
          let second : j ≡ 1 = omega arith in rw (first, second) (omega arith));
  },
  elim [
    | zero ↦ λ h. (omega arith, omega arith)
    | suc zero ↦ λ h. (omega arith, omega arith)
    | suc (suc i) ↦ λ h. absurd (omega arith)
  ],
  elim [
    | zero ↦ λ h. (
      leaf-IsNode 10 20 (omega arith),
      leaf-range 10 20 10 30 (omega arith) (omega arith) (omega arith),
    )
    | suc zero ↦ λ h. (
      leaf-IsNode 30 40 (omega arith),
      leaf-range 30 40 30 (2 ^ 64) (omega arith) (omega arith) (omega arith),
    )
    | suc (suc i) ↦ λ h. absurd (omega arith)
  ],
)

btree_find-Holds_example : (btree_find read 2 1 20 ≡ some 200) ↔ Holds read 1 1 20 200
btree_find-Holds_example = btree_find-Holds read 2 1 20 200 read-IsTree
