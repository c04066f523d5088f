-- ===== src/Superblock/Reclaim/Pool.antt =====
-- After the loop the bitmap hands out exactly the blocks of the regions.
use forestdb.Superblock.Bitmap.{is_bmp_set}
use forestdb.Superblock.Alloc.Blocks.{blocks, blocks_step, blocks_skip, blocks_end}
use forestdb.Superblock.Reclaim.{Region, ℕ, List}
use forestdb.Superblock.Reclaim.Fill.{covered, node_covered, total, Ordered, Ordered-le}
use forestdb.Common.{
  ℕ, List, length, ◌+◌, [], ◌≤◌, ◌∷◌, ◌≡◌, ◌<◌, ◌++◌, ◌∙◌, true, false, suc, arith, ◌/◌, ap, zero,
  ◌-◌, length-append, refl,
}

-- The blocks of a region, and of a list of regions.
abbrev pub count_up : ℕ → ℕ → List ℕ
count_up zero b = []
count_up (suc n) b = b ∷ count_up n (b + 1)

abbrev pub expand : List Region → List ℕ
expand [] = []
expand (r ∷ rs) = count_up r.count r.bid ++ expand rs

length-count_up : (n b : ℕ) → length (count_up n b) ≡ n
length-count_up zero b = refl
length-count_up (suc n) b = ap suc (length-count_up n (b + 1))

pub length-expand : (rs : List Region) → length (expand rs) ≡ total rs
length-expand [] = refl
length-expand (r ∷ rs) = omega (
  arith,
  length-append (count_up r.count r.bid) (expand rs),
  length-count_up r.count r.bid,
  length-expand rs,
)

-- No region from `lo` on holds a block below `lo`.
covered_below :
    (lo size : ℕ) (rs : List Region) (b : ℕ) → Ordered lo size rs → b < lo → covered rs b ≡ false
covered_below lo size [] b o h = refl
covered_below lo size (r ∷ rs) b o h = ground (arith, covered_below (r.bid + r.count) size rs b o.2)

-- Every covered block has its node covered.
pub node_covered_of :
    (lo size : ℕ) (rs : List Region) (b : ℕ)
    → Ordered lo size rs
    → covered rs b ≡ true
    → node_covered rs (b / 256) ≡ true
node_covered_of lo size [] b o h = ground arith
node_covered_of lo size (r ∷ rs) b o h =
    ground (arith, node_covered_of (r.bid + r.count) size rs b o.2)

-- No covered node lies before that of the first block.
pub node_covered_above :
    (lo size : ℕ) (rs : List Region) (j : ℕ)
    → Ordered lo size rs
    → node_covered rs j ≡ true
    → lo / 256 ≤ j
node_covered_above lo size [] j o h = ground arith
node_covered_above lo size (r ∷ rs) j o h =
    ground (arith, node_covered_above (r.bid + r.count) size rs j o.2)

module _ (bmp : List ℕ) (size : ℕ) where
  -- A run of set blocks.
  blocks-count_up :
      (n b : ℕ)
      → b + n ≤ size
      → ((c : ℕ) → b ≤ c → c < b + n → is_bmp_set bmp c ≡ true)
      → blocks bmp size b ≡ count_up n b ++ blocks bmp size (b + n)
  blocks-count_up zero b h set_all = ap (blocks bmp size) (omega arith)
  blocks-count_up (suc n) b h set_all =
      let rest =
        blocks-count_up n (b + 1) (omega arith) (λ c p q. set_all c (omega arith) (omega arith)) in
      let on : b + 1 + n ≡ b + suc n = omega arith in
      blocks_step bmp size b (omega arith)
      ∙ rw (set_all b (omega arith) (omega arith))
          (ap (λ l. b ∷ l) (rest ∙ ap (λ t. count_up n (b + 1) ++ blocks bmp size t) on))

  -- Where exactly the regions are set, the set blocks are theirs.
  pub blocks-expand :
      (rs : List Region) (lo : ℕ)
      → Ordered lo size rs
      → ((b : ℕ) → lo ≤ b → is_bmp_set bmp b ≡ covered rs b)
      → blocks bmp size lo ≡ expand rs
  blocks-expand [] lo o same =
      blocks_skip bmp size size lo (λ c p q r. same c p)
      ∙ blocks_end bmp size (lo + size) (omega arith)
  blocks-expand (r ∷ rs) lo o same =
      let bound = Ordered-le (r.bid + r.count) size rs o.2 in
      let to_region : blocks bmp size lo ≡ blocks bmp size r.bid =
        blocks_skip bmp size (r.bid - lo) lo (λ c p q k.
          same c p ∙ covered_below r.bid size (r ∷ rs) c (omega arith, o.1, o.2) (omega arith))
        ∙ ap (blocks bmp size) (omega arith) in
      let region =
        blocks-count_up r.count r.bid (omega arith)
          (λ c p q. same c (omega arith) ∙ ground arith) in
      let rest =
        blocks-expand rs (r.bid + r.count) o.2 (λ b p. same b (omega arith) ∙ ground arith) in
      to_region ∙ region ∙ ap (λ l. count_up r.count r.bid ++ l) rest
