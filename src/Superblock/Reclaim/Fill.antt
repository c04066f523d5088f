-- ===== src/Superblock/Reclaim/Fill.antt =====
-- What the loop over the regions leaves in the bitmap, the index and the counter.
use forestdb.Superblock.Bitmap.{is_bmp_set, sb_bmp_set}
use forestdb.Superblock.Bitmap.Update.{sb_bmp_update-IsUpdated}
use forestdb.Superblock.Bitmap.Writes.{in_range}
use forestdb.Superblock.Index.{search, add_bmp_idx}
use forestdb.Superblock.Index.Keys.{Ascending}
use forestdb.Superblock.Index.Add.{search-add_bmp_idx}
use forestdb.Superblock.Reclaim.{Region, Filling, fill_loop, Bool, ℕ, List}
use forestdb.Common.{
  ℕ, List, Bool, length, ◌≤◌, ◌||◌, ◌∷◌, false, ◌+◌, ◌<◌, ◌≡◌, if◌then◌else◌, [], ◌*◌, leb, arith,
  ◌/◌, ◌^◌, true, ◌&&◌, refl, ◌-◌, add64, ◌==◌, blk_not_found, ◌∙◌, ap,
}

-- Whether a region holds block `b`, and whether one of its blocks is in node `j`.
abbrev pub covered : List Region → ℕ → Bool
covered [] b = false
covered (r ∷ rs) b = in_range r.bid r.count b || covered rs b

abbrev pub node_covered : List Region → ℕ → Bool
node_covered [] j = false
node_covered (r ∷ rs) j =
    leb (r.bid / 256) j && leb j ((r.bid + r.count - 1) / 256) || node_covered rs j

abbrev pub total : List Region → ℕ
total [] = 0
total (r ∷ rs) = r.count + total rs

-- Regions that are not empty, ascend without overlap from `lo` on, and end by `size`.
abbrev pub Ordered : ℕ → ℕ → List Region → Type 0
Ordered lo size [] = lo ≤ size
Ordered lo size (r ∷ rs) = (lo ≤ r.bid) × (0 < r.count) × Ordered (r.bid + r.count) size rs

pub Ordered-le : (lo size : ℕ) (rs : List Region) → Ordered lo size rs → lo + total rs ≤ size
Ordered-le lo size [] o = omega arith
Ordered-le lo size (r ∷ rs) o = omega (arith, Ordered-le (r.bid + r.count) size rs o.2)

-- The effect of the loop.
pub record IsFilled (rs : List Region) (f out : Filling) : Type 0 where
  pub same_length : length out.bmp ≡ length f.bmp
  pub bits : (b : ℕ) → is_bmp_set out.bmp b ≡ (covered rs b || is_bmp_set f.bmp b)
  pub nodes : (j : ℕ) → search j out.idx ≡ (node_covered rs j || search j f.idx)
  pub ascending : Ascending out.idx
  pub counted : out.free ≡ f.free + total rs

or_swap : (a b c : Bool) → (a || (if b then true else c)) ≡ ((b || a) || c)
or_swap a b c = ground arith

or_swap' : (a b c : Bool) → (a || (b || c)) ≡ ((b || a) || c)
or_swap' a b c = ground arith

pub fill_loop-IsFilled :
    (rs : List Region) (head : Bool) (f : Filling) (lo size : ℕ)
    → Ordered lo size rs
    → size ≤ 8 * length f.bmp
    → size < 2 ^ 63
    → f.free + total rs < 2 ^ 63
    → Ascending f.idx
    → IsFilled rs f (fill_loop head rs f)
unfolding fill_loop sb_bmp_set
fill_loop-IsFilled [] head f lo size o fits small few a = record {
  same_length = refl;
  bits = λ b. refl;
  nodes = λ j. refl;
  ascending = a;
  counted = omega arith;
}
fill_loop-IsFilled (r ∷ rs) head f lo size o fits small few a =
    let bound = Ordered-le (r.bid + r.count) size rs o.2 in
    let updated = sb_bmp_update-IsUpdated f.bmp r.bid r.count true (omega arith) (omega arith) in
    let added = λ (j : ℕ). search-add_bmp_idx f.idx r.bid r.count j o.1 (omega arith) a in
    let free' : add64 f.free r.count ≡ f.free + r.count = omega arith in
    let rest =
      fill_loop-IsFilled rs false
        (record {
          bmp = sb_bmp_set f.bmp r.bid r.count;
          idx = add_bmp_idx f.idx r.bid r.count;
          free = add64 f.free r.count;
          cur = if head && f.cur == blk_not_found then r.bid else f.cur;
        })
        (r.bid + r.count) size o.2 (omega (arith, updated.0)) small (omega (arith, free'))
        (added 0).1 in
    record {
      same_length = rest.same_length ∙ updated.0;
      bits = λ b.
          rest.bits b
          ∙ ap (λ t. covered rs b || t) (updated.1 b)
          ∙ or_swap (covered rs b) (in_range r.bid r.count b) (is_bmp_set f.bmp b);
      nodes = λ j.
          rest.nodes j
          ∙ ap (λ t. node_covered rs j || t) (added j).0
          ∙ or_swap' (node_covered rs j)
              (leb (r.bid / 256) j && leb j ((r.bid + r.count - 1) / 256)) (search j f.idx);
      ascending = rest.ascending;
      counted = omega (arith, rest.counted, free');
    }
