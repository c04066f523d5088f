-- ===== src/Superblock/Bitmap/Writes.antt =====
-- What each of the writes of `_sb_bmp_update` does to the bits: of one byte, and of whole bytes.
use forestdb.Common.{
  ℕ, ◌+◌, ◌-◌, ◌*◌, ◌/◌, ◌%◌, ◌^◌, ◌≤◌, ◌<◌, ◌≡◌, refl, arith, ltb, leb, ◌==◌, if◌then◌else◌, Bool,
  true, false, ◌&&◌, List, length, get_or, set, length-set, get_or-set, bit_and, bit_or, not, suc,
  ◌∙◌, Bool-cases, zero, inl, tests, inr, ap₂, ap, sym,
}
use native.Mathlib.Nat.{one-le-pow}
use forestdb.Common.Bits.{bit, bit-bit_or, bit-bit_and, bit-le_one, bit_and-pow}
use forestdb.Superblock.Bitmap.{two_d_mask, is_bmp_set, mask_byte, memset, mid_loop, fill_mid, mod8}
use forestdb.Superblock.Bitmap.Masks.{mod8_lem, basic_mask_lem, two_d_mask_lem, two_d_mask-inverse}

-- The digit of block `b`, 0 or 1.
abbrev pub bit_at : List ℕ → ℕ → ℕ
bit_at bmp b = bit (get_or bmp (b / 8) 0) (7 - b % 8)

-- Whether `b` is one of the `len` numbers from `bid` on.
abbrev pub in_range : ℕ → ℕ → ℕ → Bool
in_range bid len b = leb bid b && ltb b (bid + len)

abbrev pub digit : Bool → ℕ
digit mode = if mode then 1 else 0

one_place : (d p : ℕ) → d ≤ 1 → 0 < p → not (d * p == 0) ≡ (d == 1)
one_place zero p h q = ground arith
one_place (suc zero) p h q = ground arith
one_place (suc (suc d)) p h q = absurd (omega arith)

pub is_bmp_set-bit_at : (bmp : List ℕ) (b : ℕ) → is_bmp_set bmp b ≡ (bit_at bmp b == 1)
unfolding is_bmp_set
is_bmp_set-bit_at bmp b =
    rw (mod8_lem b, basic_mask_lem (b % 8) (omega arith), bit_and-pow)
      (one_place (bit_at bmp b) (2 ^ (7 - b % 8)) (bit-le_one (7 - b % 8) (get_or bmp (b / 8) 0))
        (one-le-pow (7 - b % 8) 2 (omega arith)))

-- A write of one byte, seen from a block.
pub bit_at-set :
    (bmp : List ℕ) (i v b : ℕ)
    → i < length bmp
    → bit_at (set bmp i v) b ≡ (if i == b / 8 then bit v (7 - b % 8) else bit_at bmp b)
bit_at-set bmp i v b h = ground (arith, get_or-set bmp i (b / 8) v 0 h)

pub length-mask_byte :
    (bmp : List ℕ) (pos len : ℕ) (mode : Bool) → length (mask_byte bmp pos len mode) ≡ length bmp
unfolding mask_byte
length-mask_byte bmp pos len mode = length-set bmp _ _

-- Setting or clearing bits inside one byte.
pub bit_at-mask_byte :
    (bmp : List ℕ) (pos len : ℕ) (mode : Bool) (b : ℕ)
    → pos % 8 + len ≤ 8
    → pos / 8 < length bmp
    → bit_at (mask_byte bmp pos len mode) b
      ≡ (if in_range pos len b then digit mode else bit_at bmp b)
unfolding mask_byte
bit_at-mask_byte bmp pos len true b h q = ground (
  arith,
  mod8_lem pos,
  bit_at-set bmp (pos / 8) (bit_or (get_or bmp (pos / 8) 0) (two_d_mask (mod8 pos) len)) b,
  bit-bit_or (7 - b % 8) (get_or bmp (pos / 8) 0) (two_d_mask (mod8 pos) len),
  two_d_mask_lem (mod8 pos) len (b % 8),
  bit-le_one (7 - b % 8) (get_or bmp (pos / 8) 0),
)
bit_at-mask_byte bmp pos len false b h q = ground (
  arith,
  mod8_lem pos,
  bit_at-set bmp (pos / 8) (bit_and (get_or bmp (pos / 8) 0) (255 - two_d_mask (mod8 pos) len)) b,
  bit-bit_and (7 - b % 8) (get_or bmp (pos / 8) 0) (255 - two_d_mask (mod8 pos) len),
  two_d_mask_lem (mod8 pos) len (b % 8),
  two_d_mask-inverse (mod8 pos) len (b % 8),
  bit-le_one (7 - b % 8) (get_or bmp (pos / 8) 0),
)

pub length-memset : (n : ℕ) (bmp : List ℕ) (at v : ℕ) → length (memset n bmp at v) ≡ length bmp
unfolding memset
length-memset zero bmp at v = refl
length-memset (suc n) bmp at v = length-memset n (set bmp at v) (at + 1) v ∙ length-set bmp at v

pub get_or-memset :
    (n : ℕ) (bmp : List ℕ) (at v i : ℕ)
    → at + n ≤ length bmp
    → get_or (memset n bmp at v) i 0 ≡ (if in_range at n i then v else get_or bmp i 0)
unfolding memset
get_or-memset zero bmp at v i h = ground arith
get_or-memset (suc n) bmp at v i h = ground (
  arith,
  length-set bmp at v,
  get_or-set bmp at i v 0,
  get_or-memset n (set bmp at v) (at + 1) v i,
)

-- The byte loop over at most eight bytes is that `memset`.
mid_loop-memset :
    (rounds : ℕ) (bmp : List ℕ) (mid_pos bytes done v : ℕ)
    → mid_pos % 8 ≡ 0
    → mid_pos + 8 * bytes < 2 ^ 64
    → done ≤ bytes
    → bytes ≤ done + rounds
    → mid_loop rounds bmp mid_pos (8 * bytes) (8 * done) v
      ≡ memset (bytes - done) bmp (mid_pos / 8 + done) v
unfolding mid_loop memset
mid_loop-memset zero bmp mid_pos bytes done v e h p q =
    let none_left : bytes - done ≡ 0 = omega arith in rw none_left
mid_loop-memset (suc rounds) bmp mid_pos bytes done v e h p q =
    elim (Bool-cases (ltb (8 * done) (8 * bytes))) [
      | inl more ↦
          (let left : bytes - done ≡ suc (bytes - (done + 1)) = omega tests in
            let next : 8 * done + 8 ≡ 8 * (done + 1) = omega arith in
            let at : (mid_pos + 8 * done) % 2 ^ 64 / 2 ^ 3 ≡ mid_pos / 8 + done = omega tests in
            let on : mid_pos / 8 + done + 1 ≡ mid_pos / 8 + (done + 1) = omega arith in
            let rest =
              mid_loop-memset rounds (set bmp (mid_pos / 8 + done) v) mid_pos bytes (done + 1) v e h
                (omega tests) (omega arith) in
            rw (more, left, next, at)
              (rest
                ∙ ap (λ t. memset (bytes - (done + 1)) (set bmp (mid_pos / 8 + done) v) t v)
                    (sym on)))
      | inr stop ↦ let none_left : bytes - done ≡ 0 = ground arith in rw (stop, none_left)
    ]

-- Whole bytes, by whichever of the three ways.
pub fill_mid-memset :
    (bmp : List ℕ) (mid_pos bytes v : ℕ)
    → mid_pos % 8 ≡ 0
    → mid_pos + 8 * bytes < 2 ^ 64
    → fill_mid bmp mid_pos (8 * bytes) v ≡ memset bytes bmp (mid_pos / 8) v
unfolding fill_mid
fill_mid-memset bmp mid_pos bytes v e h = elim (Bool-cases (8 * bytes == 8)) [
  | inl one ↦ (let single : bytes ≡ 1 = ground arith in rw (one, single) (unfold memset in refl))
  | inr many ↦ elim (Bool-cases (ltb (8 * bytes) 64)) [
    | inl short ↦
        (let whole : bytes - 0 ≡ bytes = omega arith in
          let start : mid_pos / 8 + 0 ≡ mid_pos / 8 = omega arith in
          let steps = mid_loop-memset 8 bmp mid_pos bytes 0 v e h (omega arith) (omega tests) in
          rw (many, short) (steps ∙ ap₂ (λ n at. memset n bmp at v) whole start))
    | inr long ↦ let whole : 8 * bytes / 8 ≡ bytes = omega arith in rw (many, long, whole)
  ]
]
