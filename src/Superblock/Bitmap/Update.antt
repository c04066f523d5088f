-- ===== src/Superblock/Bitmap/Update.antt =====
-- `_sb_bmp_update` against its meaning, bit by bit.
use forestdb.Common.{
  ℕ, ◌+◌, ◌-◌, ◌*◌, ◌/◌, ◌%◌, ◌^◌, ◌≤◌, ◌<◌, ◌≡◌, refl, arith, leb, ◌==◌, if◌then◌else◌, Bool, true,
  false, List, length, add64, ◌∙◌, Bool-cases, inl, tests, inr, ==_iff,
}
use forestdb.Common.Bits.{each_below, bit, each_below-holds}
use forestdb.Superblock.Bitmap.{is_bmp_set, mask_byte, split, fill_mid, sb_bmp_update}
use forestdb.Superblock.Bitmap.Masks.{mod8_lem}
use forestdb.Superblock.Bitmap.Writes.{
  bit_at, in_range, digit, is_bmp_set-bit_at, length-mask_byte, bit_at-mask_byte, length-memset,
  get_or-memset, fill_mid-memset,
}

-- What the front part and the rear part leave, seen from a block.
front_rear :
    (bmp : List ℕ) (pos len : ℕ) (mode : Bool) (b : ℕ)
    → pos % 8 + len ≤ 8
    → pos + len ≤ 8 * length bmp
    → bit_at (if len == 0 then bmp else mask_byte bmp pos len mode) b
      ≡ (if in_range pos len b then digit mode else bit_at bmp b)
front_rear bmp pos len mode b h q = elim (Bool-cases (len == 0)) [
  | inl none_left ↦ rw none_left (ground arith)
  | inr some_left ↦ rw some_left (bit_at-mask_byte bmp pos len mode b h (ground arith))
]

-- The parts of the range, in units that the three writes take.
split_front :
    (bid len : ℕ)
    → len ≤ 8 - bid % 8
    → split bid len
      ≡ record { front_len = len; rear_pos = 0; rear_len = 0; mid_pos = 0; mid_len = 0 }
unfolding split
split_front bid len h = ground (arith, mod8_lem bid)

split_wide :
    (bid len : ℕ)
    → 8 - bid % 8 < len
    → bid + len < 2 ^ 64
    → split bid len ≡ record {
      front_len = 8 - bid % 8;
      rear_pos = (bid + len) / 8 * 8;
      rear_len = (bid + len) % 8;
      mid_pos = bid + (8 - bid % 8);
      mid_len = len - (8 - bid % 8) - (bid + len) % 8;
    }
unfolding split
split_wide bid len h k = ground (arith, mod8_lem bid, mod8_lem (add64 bid len))

-- Every digit of the filling byte is the mode.
bit-filler : (mode : Bool) (k : ℕ) → k < 8 → bit (if mode then 0xff else 0) (7 - k) ≡ digit mode
unfolding each_below
bit-filler true k h = (==_iff _ _).0 (each_below-holds 8 (λ k. bit 0xff (7 - k) == 1) k refl h)
bit-filler false k h = (==_iff _ _).0 (each_below-holds 8 (λ k. bit 0 (7 - k) == 0) k refl h)

bit_at-fill :
    (bmp : List ℕ) (mid_pos bytes : ℕ) (mode : Bool) (b : ℕ)
    → mid_pos % 8 ≡ 0
    → mid_pos + 8 * bytes < 2 ^ 64
    → mid_pos + 8 * bytes ≤ 8 * length bmp
    → bit_at (fill_mid bmp mid_pos (8 * bytes) (if mode then 0xff else 0)) b
      ≡ (if in_range mid_pos (8 * bytes) b then digit mode else bit_at bmp b)
bit_at-fill bmp mid_pos bytes mode b e h fits =
    let v : ℕ = if mode then 0xff else 0 in
    rw (fill_mid-memset bmp mid_pos bytes v e h)
      (ground (arith, get_or-memset bytes bmp (mid_pos / 8) v (b / 8), bit-filler mode (b % 8)))

length-fill :
    (bmp : List ℕ) (mid_pos bytes v : ℕ)
    → mid_pos % 8 ≡ 0
    → mid_pos + 8 * bytes < 2 ^ 64
    → length (fill_mid bmp mid_pos (8 * bytes) v) ≡ length bmp
length-fill bmp mid_pos bytes v e h =
    rw (fill_mid-memset bmp mid_pos bytes v e h) (length-memset bytes bmp (mid_pos / 8) v)

length-front_rear :
    (bmp : List ℕ) (pos len : ℕ) (mode : Bool)
    → length (if len == 0 then bmp else mask_byte bmp pos len mode) ≡ length bmp
length-front_rear bmp pos len mode = ground (arith, length-mask_byte bmp pos len mode)

-- What `_sb_bmp_update` leaves of the digits, and of the length.
pub record IsUpdated (bmp : List ℕ) (bid len : ℕ) (mode : Bool) (out : List ℕ) : Type 0 where
  pub same_length : length out ≡ length bmp
  pub digits : (b : ℕ) → bit_at out b ≡ (if in_range bid len b then digit mode else bit_at bmp b)

module _ (bmp : List ℕ) (bid len : ℕ) (mode : Bool) (fits : bid + len ≤ 8 * length bmp)
    (small : bid + len < 2 ^ 64) where
  abbrev front : ℕ → List ℕ
  front n = if n == 0 then bmp else mask_byte bmp bid n mode

  update-narrow : len ≤ 8 - bid % 8 → IsUpdated bmp bid len mode (sb_bmp_update bmp bid len mode)
  unfolding sb_bmp_update
  update-narrow h = rw (split_front bid len h) (record {
    same_length =
        length-fill (front len) 0 0 _ (omega arith) (omega arith)
        ∙ length-front_rear bmp bid len mode;
    digits = λ b.
        bit_at-fill (front len) 0 0 mode b (omega arith) (omega arith) (omega arith)
        ∙ ground (arith, front_rear bmp bid len mode b);
  })

  update-wide : 8 - bid % 8 < len → IsUpdated bmp bid len mode (sb_bmp_update bmp bid len mode)
  unfolding sb_bmp_update
  update-wide h =
      let head = 8 - bid % 8 in
      let bytes = (len - head - (bid + len) % 8) / 8 in
      let whole : len - head - (bid + len) % 8 ≡ 8 * bytes = omega arith in
      let rear =
        if (bid + len) % 8 == 0
        then front head
        else mask_byte (front head) ((bid + len) / 8 * 8) ((bid + len) % 8) mode in
      let front_length = length-front_rear bmp bid head mode in
      let rear_length =
        length-front_rear (front head) ((bid + len) / 8 * 8) ((bid + len) % 8) mode in
      rw (split_wide bid len h small, whole)
        (record {
          same_length =
              length-fill rear (bid + head) bytes _ (omega arith) (omega arith)
              ∙ rear_length
              ∙ front_length;
          digits = λ b.
              bit_at-fill rear (bid + head) bytes mode b (omega arith) (omega arith)
                (omega (arith, front_length, rear_length))
              ∙ ground (
                arith,
                front_length,
                front_rear bmp bid head mode b,
                front_rear (front head) ((bid + len) / 8 * 8) ((bid + len) % 8) mode b,
              );
        })

-- Within the array and without wrap-around, the masks, the byte loop and `memset` together write
-- `mode` to exactly the blocks from `bid` up to `bid + len`, leave every other block as it was,
-- and do not change the length of the bitmap.
pub sb_bmp_update-IsUpdated :
    (bmp : List ℕ) (bid len : ℕ) (mode : Bool)
    → bid + len ≤ 8 * length bmp
    → bid + len < 2 ^ 64
    → (length (sb_bmp_update bmp bid len mode) ≡ length bmp)
      × ((b : ℕ)
          → is_bmp_set (sb_bmp_update bmp bid len mode) b
            ≡ (if in_range bid len b then mode else is_bmp_set bmp b))
sb_bmp_update-IsUpdated bmp bid len mode fits small = (
  done.same_length,
  λ b. rw (is_bmp_set-bit_at, is_bmp_set-bit_at bmp b, done.digits b) (ground arith),
)
  where
    done : IsUpdated bmp bid len mode (sb_bmp_update bmp bid len mode)
    done = elim (Bool-cases (leb len (8 - bid % 8))) [
      | inl narrow ↦ update-narrow bmp bid len mode fits small (omega tests)
      | inr wide ↦ update-wide bmp bid len mode fits small (ground arith)
    ]
