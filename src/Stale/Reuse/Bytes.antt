-- ===== src/Stale/Reuse/Bytes.antt =====
-- The bytes that the parts of a region hold.
use forestdb.Stale.Merge.{StaleData}
use forestdb.Stale.Merge.Tree.{covers}
use forestdb.Stale.Reuse.Parts.{in_blocks, waits, IsRest, IsFront, IsMiddle}
use forestdb.Superblock.Reclaim.{Region}
use Prim.Native.Nat.{ℕ}
use forestdb.Common.{
  ℕ, List, Option, ◌≡◌, ◌≤◌, ◌∷◌, ◌++◌, true, ◌||◌, ◌+◌, leb, [], ◌&&◌, arith, ltb, Bool-cases,
  refl, some, inl, none, inr,
}

-- Regions in order that do not overlap, from `lo` on.
unfoldable pub Disjoint : ℕ → List StaleData → Type 0
Disjoint lo [] = Unit
Disjoint lo (r ∷ rs) = (lo ≤ r.pos) × Disjoint (r.pos + r.len) rs

pub covers-from : (lo x : ℕ) (rs : List StaleData) → Disjoint lo rs → covers rs x ≡ true → lo ≤ x
unfolding covers Disjoint
covers-from lo x [] d h = absurd (ground (arith, h))
covers-from lo x (r ∷ rs) (p, d) h = elim (Bool-cases (covers rs x)) [
  | inl t ↦ (let more = covers-from (r.pos + r.len) x rs d t in omega arith)
  | inr f ↦ ground (arith, h, f)
]

pub covers-front :
    (pos lo x : ℕ) (front : List StaleData)
    → pos ≤ lo
    → IsFront pos lo front
    → covers front x ≡ (leb pos x && ltb x lo)
unfolding covers IsFront
covers-front pos lo x [] h e = ground arith
covers-front pos lo x (r ∷ rs) h (p, q, e) = rw e (ground arith)

pub in_blocks-middle :
    (blocksize lo hi x : ℕ) (blocks : List Region)
    → lo ≤ hi
    → IsMiddle blocksize lo hi blocks
    → in_blocks blocksize blocks x ≡ (leb lo x && ltb x hi)
unfolding in_blocks IsMiddle
in_blocks-middle blocksize lo hi x [] h e = ground arith
in_blocks-middle blocksize lo hi x (r ∷ rs) h (p, q, c, e) = rw (e, p, q) (ground arith)

pub waits-rest :
    (lo hi x : ℕ) (o : Option StaleData)
    → lo ≤ hi
    → IsRest lo hi o
    → waits o x ≡ (leb lo x && ltb x hi)
unfolding waits IsRest
waits-rest lo hi x none h e = ground arith
waits-rest lo hi x (some r) h (p, q) = ground arith

pub in_blocks-append :
    (blocksize : ℕ) (xs ys : List Region) (x : ℕ)
    → in_blocks blocksize (xs ++ ys) x ≡ in_blocks blocksize xs x || in_blocks blocksize ys x
unfolding in_blocks
in_blocks-append blocksize [] ys x = refl
in_blocks-append blocksize (r ∷ rs) ys x =
    let rest = in_blocks-append blocksize rs ys x in rw rest (ground arith)
