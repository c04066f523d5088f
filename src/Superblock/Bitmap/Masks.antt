-- ===== src/Superblock/Bitmap/Masks.antt =====
-- What the mask tables of `sb_bmp_mask_init` hold, digit by digit.
use forestdb.Common.{
  ℕ, ◌+◌, ◌-◌, ◌/◌, ◌%◌, ◌^◌, ◌≤◌, ◌<◌, ◌≡◌, refl, arith, ltb, leb, ◌==◌, ==_iff, if◌then◌else◌,
  true, ◌&&◌,
}
use forestdb.Common.Bits.{bit, bit_and-halves, bit_and-pow, each_below-holds, each_below}
use forestdb.Superblock.Bitmap.{mod8, basic_mask, two_d_mask}

pub mod8_lem : (x : ℕ) → mod8 x ≡ x % 8
unfolding mod8
mod8_lem x = omega (arith, bit_and-halves x 7, bit_and-halves (x / 2) 3, bit_and-pow 0 (x / 2 / 2))

basic_table : each_below 8 (λ off. basic_mask off == 2 ^ (7 - off)) ≡ true
unfolding each_below basic_mask
basic_table = refl

pub basic_mask_lem : (off : ℕ) → off < 8 → basic_mask off ≡ 2 ^ (7 - off)
basic_mask_lem off h = (==_iff _ _).0 (each_below-holds 8 _ off basic_table h)

-- Whether offset `off` of a byte lies among the `len` bits from `pos` on.
abbrev pub covers : ℕ → ℕ → ℕ → ℕ
covers pos len off = if leb pos off && ltb off (pos + len) then 1 else 0

two_d_table :
    each_below 8 (λ pos. each_below 9 (λ len. each_below 8 (λ off.
      (if leb (pos + len) 8 then covers pos len off else 0) == bit (two_d_mask pos len) (7 - off))))
    ≡ true
unfolding each_below two_d_mask
two_d_table = refl

-- The mask of `pos` and `len` holds the ones of that range of a byte, and no other.
pub two_d_mask_lem :
    (pos len off : ℕ)
    → pos < 8
    → pos + len ≤ 8
    → off < 8
    → bit (two_d_mask pos len) (7 - off) ≡ covers pos len off
two_d_mask_lem pos len off p q r =
    let row = each_below-holds 8 _ pos two_d_table p in
    let entry = each_below-holds 9 _ len row (omega arith) in
    let same = (==_iff _ _).0 (each_below-holds 8 _ off entry r) in ground (arith, same)

two_d_complement :
    each_below 8 (λ pos. each_below 9 (λ len. each_below 8 (λ off.
      (1 - bit (two_d_mask pos len) (7 - off)) == bit (255 - two_d_mask pos len) (7 - off))))
    ≡ true
unfolding each_below two_d_mask
two_d_complement = refl

pub two_d_mask-inverse :
    (pos len off : ℕ)
    → pos < 8
    → len < 9
    → off < 8
    → bit (255 - two_d_mask pos len) (7 - off) ≡ 1 - bit (two_d_mask pos len) (7 - off)
two_d_mask-inverse pos len off p q r =
    let row = each_below-holds 8 _ pos two_d_complement p in
    let entry = each_below-holds 9 _ len row q in
    let same = (==_iff _ _).0 (each_below-holds 8 _ off entry r) in omega (arith, same)
