-- ===== src/Superblock/Index/Keys.antt =====
-- The ascending list of keys: membership and order under each operation.
use forestdb.Common.{
  refl, ℕ, List, ◌∷◌, ◌≡◌, ◌<◌, arith, ◌≤◌, false, if◌then◌else◌, ◌==◌, true, [], none, length,
  some, ◌+◌,
}
use forestdb.Superblock.Index.{search, insert, remove, first}

-- Every key of the list is above `lo`, and the keys ascend.
abbrev pub Above : ℕ → List ℕ → Type 0
Above lo [] = Unit
Above lo (k ∷ ks) = (lo < k) × Above k ks

abbrev pub Ascending : List ℕ → Type 0
Ascending [] = Unit
Ascending (k ∷ ks) = Above k ks

pub search-insert :
    (j id : ℕ) (ks : List ℕ) → search j (insert id ks) ≡ (if j == id then true else search j ks)
unfolding search insert
search-insert j id [] = ground arith
search-insert j id (k ∷ ks) = ground (arith, search-insert j id ks)

search-Above : (j lo : ℕ) (ks : List ℕ) → Above lo ks → j ≤ lo → search j ks ≡ false
unfolding search
search-Above j lo [] a h = refl
search-Above j lo (k ∷ ks) a h = ground (arith, search-Above j k ks)

Above-Ascending : (lo : ℕ) (ks : List ℕ) → Above lo ks → Ascending ks
Above-Ascending lo [] a = omega arith
Above-Ascending lo (k ∷ ks) a = a.1

pub search-remove :
    (j id : ℕ) (ks : List ℕ)
    → Ascending ks
    → search j (remove id ks) ≡ (if j == id then false else search j ks)
unfolding search remove
search-remove j id [] a = ground arith
search-remove j id (k ∷ ks) a =
    ground (arith, search-remove j id ks (Above-Ascending k ks a), search-Above j k ks)

Above-insert : (lo id : ℕ) (ks : List ℕ) → Above lo ks → lo < id → Above lo (insert id ks)
unfolding insert
Above-insert lo id [] a h = omega arith
Above-insert lo id (k ∷ ks) a h = ground (arith, Above-insert k id ks)

pub Ascending-insert : (id : ℕ) (ks : List ℕ) → Ascending ks → Ascending (insert id ks)
unfolding insert
Ascending-insert id [] a = omega arith
Ascending-insert id (k ∷ ks) a = ground (arith, Above-insert k id ks)

Above-mono : (lo hi : ℕ) (ks : List ℕ) → lo ≤ hi → Above hi ks → Above lo ks
Above-mono lo hi [] h a = omega arith
Above-mono lo hi (k ∷ ks) h a = (omega arith, a.1)

Above-remove : (lo id : ℕ) (ks : List ℕ) → Above lo ks → Above lo (remove id ks)
unfolding remove
Above-remove lo id [] a = omega arith
Above-remove lo id (k ∷ ks) a = ground (arith, Above-remove k id ks, Above-mono lo k ks)

pub Ascending-remove : (id : ℕ) (ks : List ℕ) → Ascending ks → Ascending (remove id ks)
unfolding remove
Ascending-remove id [] a = omega arith
Ascending-remove id (k ∷ ks) a = ground (arith, Above-remove k id ks, Above-Ascending k ks)

-- The first key is present, and no key is below it.
pub search-first :
    (j k : ℕ) (ks : List ℕ)
    → Ascending ks
    → first ks ≡ some k
    → (search k ks ≡ true) × (search j ks ≡ true → k ≤ j)
unfolding search first
search-first j k [] a h = ground arith
search-first j k (x ∷ ks) a h = ground (arith, search-Above j x ks)

pub search-empty : (j : ℕ) (ks : List ℕ) → first ks ≡ none → search j ks ≡ false
unfolding search first
search-empty j [] h = refl
search-empty j (x ∷ ks) h = ground arith

-- Removing a key that is present shortens the list.
pub length-remove :
    (id : ℕ) (ks : List ℕ) → search id ks ≡ true → length (remove id ks) + 1 ≡ length ks
unfolding search remove
length-remove id [] h = ground arith
length-remove id (k ∷ ks) h = ground (arith, length-remove id ks)

pub length-remove-le : (id : ℕ) (ks : List ℕ) → length (remove id ks) ≤ length ks
unfolding remove
length-remove-le id [] = omega arith
length-remove-le id (k ∷ ks) = ground (arith, length-remove-le id ks)
