-- ===== src/Superblock/Bitmap.antt =====
-- The bitmap of reusable blocks: the masks and bit updates of src/superblock.cc.
-- A bitmap is its array of bytes; block `b` is bit `7 - b % 8` of byte `b / 8`.
pub mod Masks
pub mod Writes
pub mod Update
use forestdb.Common.{
  ℕ, zero, suc, ◌+◌, ◌-◌, ◌*◌, ◌/◌, ◌^◌, ◌==◌, ltb, leb, if◌then◌else◌, bit_and, bit_or, Bool, true,
  false, not, ◌&&◌, List, [], ◌∷◌, get_or, set, replicate, add64, sub64, u8,
}

-- the macros `mod8`, `div8` and `rd8`
unfoldable pub mod8 : ℕ → ℕ
mod8 x = bit_and x 0x7

abbrev pub div8 : ℕ → ℕ
div8 x = x / 2 ^ 3

abbrev pub rd8 : ℕ → ℕ
rd8 x = x / 2 ^ 3 * 2 ^ 3

-- `bmp_basic_mask` and `bmp_2d_mask`
pub record MaskTables : Type 0 where
  pub basic : List ℕ
  pub two_d : List (List ℕ)

-- The loop over `i < 8` that fills the basic masks, with `left` rounds to go.
basic_loop : ℕ → ℕ → List ℕ → List ℕ
basic_loop zero i basic = basic
basic_loop (suc left) i basic = basic_loop left (i + 1) (set basic i (u8 (1 * 2 ^ (7 - i))))

-- The innermost loop: `bmp_2d_mask[pos][len] |= bmp_basic_mask[pos + i]`.
or_loop : List ℕ → ℕ → ℕ → ℕ → ℕ → ℕ
or_loop basic pos zero i mask = mask
or_loop basic pos (suc left) i mask =
    or_loop basic pos left (i + 1) (bit_or mask (get_or basic (pos + i) 0))

-- The entry at `pos` and `len`.
two_d_entry : List ℕ → ℕ → ℕ → ℕ
two_d_entry basic pos len =
    if not (len == 0) && leb (pos + len) 8 then or_loop basic pos len 0 0 else 0

-- The loop over `len < 9`, for the row of `pos`.
len_loop : List ℕ → ℕ → ℕ → ℕ → List ℕ → List ℕ
len_loop basic pos zero len row = row
len_loop basic pos (suc left) len row =
    len_loop basic pos left (len + 1) (set row len (two_d_entry basic pos len))

-- The loop over `pos < 8`.
pos_loop : List ℕ → ℕ → ℕ → List (List ℕ) → List (List ℕ)
pos_loop basic zero pos rows = rows
pos_loop basic (suc left) pos rows =
    pos_loop basic left (pos + 1) (set rows pos (len_loop basic pos 9 0 (get_or rows pos [])))

pub sb_bmp_mask_init : MaskTables → MaskTables
unfolding basic_loop or_loop two_d_entry len_loop pos_loop
sb_bmp_mask_init t =
    let basic = basic_loop 8 0 t.basic in
    record { basic = basic; two_d = pos_loop basic 8 0 t.two_d }

-- The tables once the library is initialised; C zeroes static arrays.
pub masks : MaskTables
unfolding sb_bmp_mask_init
masks = sb_bmp_mask_init (record { basic = replicate 8 0; two_d = replicate 8 (replicate 9 0) })

unfoldable pub basic_mask : ℕ → ℕ
unfolding masks
basic_mask off = get_or masks.basic off 0

pub two_d_mask : ℕ → ℕ → ℕ
unfolding masks
two_d_mask pos len = get_or (get_or masks.two_d pos []) len 0

unfoldable pub is_bmp_set : List ℕ → ℕ → Bool
is_bmp_set bmp bid = not (bit_and (get_or bmp (div8 bid) 0) (basic_mask (mod8 bid)) == 0)

-- `bmp[div8(pos)] |= mask` or `&= ~mask` with the mask of `mod8(pos)` and `len`.
pub mask_byte : List ℕ → ℕ → ℕ → Bool → List ℕ
mask_byte bmp pos len mode =
    let old = get_or bmp (div8 pos) 0 in
    let mask = two_d_mask (mod8 pos) len in
    set bmp (div8 pos) (if mode then bit_or old mask else bit_and old (255 - mask))

-- `memset(bmp + at, value, count)`
pub memset : ℕ → List ℕ → ℕ → ℕ → List ℕ
memset zero bmp at value = bmp
memset (suc count) bmp at value = memset count (set bmp at value) (at + 1) value

-- `for (i = 0; i < mid_len; i += 8)`, entered with `mid_len < 64`: eight rounds are enough.
pub mid_loop : ℕ → List ℕ → ℕ → ℕ → ℕ → ℕ → List ℕ
mid_loop zero bmp mid_pos mid_len i value = bmp
mid_loop (suc rounds) bmp mid_pos mid_len i value =
    let rest =
      mid_loop rounds (set bmp (div8 (add64 mid_pos i)) value) mid_pos mid_len (i + 8) value in
    if ltb i mid_len then rest else bmp

-- Where `_sb_bmp_update` splits the range.
pub record Split : Type 0 where
  pub front_len : ℕ
  pub rear_pos : ℕ
  pub rear_len : ℕ
  pub mid_pos : ℕ
  pub mid_len : ℕ

pub split : ℕ → ℕ → Split
split bid len =
    let front_len = 8 - mod8 bid in
    let rear_len = mod8 (add64 bid len) in
    if leb len front_len
    then record { front_len = len; rear_pos = 0; rear_len = 0; mid_pos = 0; mid_len = 0 }
    else record {
      front_len = front_len;
      rear_pos = rd8 (add64 bid len);
      rear_len = rear_len;
      mid_pos = add64 bid front_len;
      mid_len = sub64 (sub64 len front_len) rear_len;
    }

pub fill_mid : List ℕ → ℕ → ℕ → ℕ → List ℕ
fill_mid bmp mid_pos mid_len value =
    if mid_len == 8
    then set bmp (div8 mid_pos) value
    else if ltb mid_len 64
    then mid_loop 8 bmp mid_pos mid_len 0 value
    else memset (div8 mid_len) bmp (div8 mid_pos) value

-- `mode` is true to set the bits and false to clear them.
unfoldable pub sb_bmp_update : List ℕ → ℕ → ℕ → Bool → List ℕ
sb_bmp_update bmp bid len mode =
    let s = split bid len in
    let front = if s.front_len == 0 then bmp else mask_byte bmp bid s.front_len mode in
    let rear = if s.rear_len == 0 then front else mask_byte front s.rear_pos s.rear_len mode in
    fill_mid rear s.mid_pos s.mid_len (if mode then 0xff else 0)

unfoldable pub sb_bmp_set : List ℕ → ℕ → ℕ → List ℕ
sb_bmp_set bmp bid len = sb_bmp_update bmp bid len true

unfoldable pub sb_bmp_clear : List ℕ → ℕ → ℕ → List ℕ
sb_bmp_clear bmp bid len = sb_bmp_update bmp bid len false
