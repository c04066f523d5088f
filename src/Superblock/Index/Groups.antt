-- ===== src/Superblock/Index/Groups.antt =====
-- The groups of 64 blocks that `_construct_bmp_idx` of src/superblock.cc tests at once.
use forestdb.Common.{
  ℕ, List, zero, suc, ◌≡◌, ◌≢◌, ◌<◌, ◌+◌, ◌*◌, ◌/◌, true, false, ◌==◌, get_or, arith, refl, ap, ◌∙◌,
  subst, bit_and, ◌%◌,
}
use forestdb.Superblock.Bitmap.{is_bmp_set, div8, basic_mask, mod8}
use forestdb.Superblock.Index.{byte_nonzero, group_nonzero}
use Prim.Native.Nat.{bit_and-bitwise}

bit_and-zero : (b : ℕ) → bit_and 0 b ≡ 0
bit_and-zero b = simp bit_and-bitwise (omega arith)

byte_nonzero-at :
    (bmp : List ℕ) (at left k : ℕ)
    → k < left
    → get_or bmp (at + k) 0 ≢ 0
    → byte_nonzero bmp at left ≡ true
unfolding byte_nonzero
byte_nonzero-at bmp at zero k h ne = absurd (omega arith)
byte_nonzero-at bmp at (suc left) zero h ne =
    let here : (get_or bmp at 0 == 0) ≡ false =
      (let start : at + 0 ≡ at = omega arith in
        let other = subst (λ t. get_or bmp t 0 ≢ 0) start ne in ground (arith, other)) in
    rw here refl
byte_nonzero-at bmp at (suc left) (suc k) h ne =
    let next : at + suc k ≡ at + 1 + k = omega arith in
    let rest =
      byte_nonzero-at bmp (at + 1) left k (omega arith) (subst (λ t. get_or bmp t 0 ≢ 0) next ne) in
    ground (arith, rest)

-- A group with a set block is not zero.
pub group_nonzero-is_bmp_set :
    (bmp : List ℕ) (b : ℕ) → is_bmp_set bmp b ≡ true → group_nonzero bmp (b / 64) ≡ true
unfolding is_bmp_set group_nonzero
group_nonzero-is_bmp_set bmp b h =
    let place : div8 b ≡ b / 64 * 8 + b / 8 % 8 = omega arith in
    byte_nonzero-at bmp (b / 64 * 8) 8 (b / 8 % 8) (omega arith) (λ z.
      (let clear : get_or bmp (div8 b) 0 ≡ 0 = ap (λ t. get_or bmp t 0) place ∙ z in
        let none_set : bit_and (get_or bmp (div8 b) 0) (basic_mask (mod8 b)) ≡ 0 =
          ap (λ t. bit_and t (basic_mask (mod8 b))) clear ∙ bit_and-zero (basic_mask (mod8 b)) in
        absurd (ground (arith, h, none_set))))
