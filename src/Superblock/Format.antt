-- ===== src/Superblock/Format.antt =====
-- The block format of a superblock: `sb_write`, `_sb_read_given_no` and `_sb_init` of
-- src/superblock.cc. Numbers are stored in big-endian order (`_endian_encode`, then `memcpy`). The
-- checksum is a parameter; the outcome of a system call is an argument, as is whether it moved the
-- whole block.
pub mod Fields
pub mod Entries
pub mod Restored
pub mod RoundTrip
use forestdb.Common.Bytes.{put_be, from_be, copy_at, slice}
use forestdb.Version.{ver_superblock_support}
use forestdb.Superblock.State.{
  Superblock, RsvBmp, RsvStatus, Filemgr, Status, success, sb_race_condition, sb_read_fail,
  is_ready,
}
use forestdb.Superblock.Switch.{empty_doc}
use forestdb.Common.{
  List, ℕ, Option, none, ◌+◌, ◌∷◌, ◌*◌, some, Bool, if◌then◌else◌, [], replicate, ◌++◌,
  blk_not_found, not, ◌==◌, add64, length, zero, calloc, get_or, sub64, set, ◌-◌, ◌/◌, ◌≡◌, true,
  ◌<◌,
}
use Prim.Native.Nat.{ℕ, suc}

abbrev pub sb_max_bitmap_doc_size : ℕ
sb_max_bitmap_doc_size = 1048576

-- `_bmp_size_to_num_docs`
unfoldable pub bmp_size_to_num_docs : ℕ → ℕ
bmp_size_to_num_docs bmp_size =
    let num_bits_per_doc = 8 * sb_max_bitmap_doc_size in
    if bmp_size == 0 then 0 else sub64 (add64 bmp_size num_bits_per_doc) 1 / num_bits_per_doc

abbrev pub blk_marker_sb : ℕ
blk_marker_sb = 0xcc

-- A 64-bit number at an offset.
pub put_u64 : List ℕ → ℕ → ℕ → List ℕ
put_u64 buf off v = copy_at buf off (put_be 8 v)

pub get_u64 : List ℕ → ℕ → ℕ
get_u64 buf off = from_be 0 (slice buf off 8)

-- `memcpy(buf + offset, &enc_u64, 8); offset += 8`, for one value after the other.
pub put_all : List ℕ → ℕ → List ℕ → List ℕ
put_all buf off [] = buf
put_all buf off (v ∷ vs) = put_all (put_u64 buf off v) (off + 8) vs

-- The first `n` entries of an array of offsets, from entry `i` on.
unfoldable pub entries : ℕ → ℕ → List ℕ → List ℕ
entries zero i offsets = []
entries (suc n) i offsets = get_or offsets i 0 ∷ entries n (i + 1) offsets

abbrev pub offsets_of : Option (List ℕ) → List ℕ
offsets_of none = []
offsets_of (some l) = l

-- Where a ready reserve is written: its size, and the offsets of its documents.
unfoldable pub rsv_size : Option RsvBmp → ℕ
rsv_size none = 0
rsv_size (some r) = if is_ready r.status then r.bmp_size else 0

unfoldable pub rsv_offsets : Option RsvBmp → List ℕ
rsv_offsets none = []
rsv_offsets (some r) =
    if is_ready r.status
    then entries (bmp_size_to_num_docs r.bmp_size) 0 (offsets_of r.bmp_doc_offset)
    else []

-- The values in the order in which `sb_write` stores them: those of every block, then offsets.
abbrev pub fixed_values : ℕ → Superblock → List ℕ
fixed_values version sb =
    version
    ∷ sb.revnum
    ∷ sb.bmp_revnum
    ∷ sb.cur_alloc_bid
    ∷ sb.last_hdr_bid
    ∷ sb.last_hdr_revnum
    ∷ sb.min_live_hdr_revnum
    ∷ sb.min_live_hdr_bid
    ∷ sb.num_init_free_blocks
    ∷ sb.num_free_blocks
    ∷ sb.bmp_size
    ∷ rsv_size sb.rsv_bmp
    ∷ []

unfoldable pub stored_values : ℕ → Superblock → List ℕ
unfolding rsv_offsets
stored_values version sb =
    fixed_values version sb
    ++ (entries (bmp_size_to_num_docs sb.bmp_size) 0 (offsets_of sb.bmp_doc_offset)
        ++ rsv_offsets sb.rsv_bmp)

-- `_sb_init` on zeroed memory
unfoldable pub sb_init_new : ℕ → Superblock
sb_init_new num_sb = record {
  num_sb = num_sb;
  revnum = 0;
  bmp_revnum = 0;
  bmp_size = 0;
  bmp = none;
  bmp_prev_size = 0;
  bmp_prev = none;
  bmp_idx = [];
  bmp_doc_offset = none;
  bmp_docs = [];
  num_bmp_docs = 0;
  num_init_free_blocks = 0;
  num_free_blocks = 0;
  rsv_bmp = none;
  cur_alloc_bid = blk_not_found;
  last_hdr_bid = blk_not_found;
  min_live_hdr_revnum = 0;
  min_live_hdr_bid = blk_not_found;
  last_hdr_revnum = 0;
  num_alloc = 0;
}

-- The reserve that `_sb_read_given_no` allocates for a size that is not 0. Its array of offsets is
-- read later from offset `off` on.
pub read_values : ℕ → List ℕ → ℕ → List ℕ
read_values zero buf off = []
read_values (suc n) buf off = get_u64 buf off ∷ read_values n buf (off + 8)

abbrev pub offset_array : ℕ → List ℕ → Option (List ℕ)
offset_array n l = if n == 0 then none else some l

pub read_reserve : List ℕ → ℕ → ℕ → RsvBmp
read_reserve buf size off =
    let num_docs = bmp_size_to_num_docs size in
    record {
      bmp_revnum = 0;
      bmp_size = size;
      bmp = none;
      bmp_idx = [];
      bmp_doc_offset = offset_array num_docs (read_values num_docs buf off);
      bmp_docs = replicate num_docs empty_doc;
      num_bmp_docs = num_docs;
      num_free_blocks = 0;
      cur_alloc_bid = blk_not_found;
      min_live_hdr_revnum = 0;
      min_live_hdr_bid = 0;
      status = RsvStatus.initializing;
    }

-- The superblock as filled in from the buffer, before the checksum is looked at. The numbers of
-- offsets come from the block, unchecked, and the source reads as many behind each other, also past
-- the end of its buffer, which is undefined; here, bytes out of range are 0, and `ReadsInside` says
-- that there are none. The header is
-- read into fields; what is not stored stays as `sb` has it.
pub read_fields : Superblock → List ℕ → Superblock
unfolding read_reserve
read_fields sb buf =
    let num_docs = bmp_size_to_num_docs (get_u64 buf 80) in
    let size = get_u64 buf 88 in
    record sb {
      revnum = get_u64 buf 8;
      bmp_revnum = get_u64 buf 16;
      cur_alloc_bid = get_u64 buf 24;
      last_hdr_bid = get_u64 buf 32;
      last_hdr_revnum = get_u64 buf 40;
      min_live_hdr_revnum = get_u64 buf 48;
      min_live_hdr_bid = get_u64 buf 56;
      num_init_free_blocks = get_u64 buf 64;
      num_free_blocks = get_u64 buf 72;
      bmp_size = get_u64 buf 80;
      bmp = none;
      num_bmp_docs = num_docs;
      bmp_doc_offset =
          if num_docs == 0 then sb.bmp_doc_offset else some (read_values num_docs buf 96);
      bmp_docs = if num_docs == 0 then sb.bmp_docs else replicate num_docs empty_doc;
      rsv_bmp = if size == 0 then sb.rsv_bmp else some (read_reserve buf size (96 + 8 * num_docs));
    }

-- The offset of the checksum in a block that is read.
pub read_length : List ℕ → ℕ
read_length buf =
    let size = get_u64 buf 88 in
    96
    + 8 * bmp_size_to_num_docs (get_u64 buf 80)
    + (if size == 0 then 0 else 8 * bmp_size_to_num_docs size)

-- A block that the source reads without leaving its buffer: if it is not refused for its marker or
-- version, the offsets that it announces, and the checksum behind them, end before the marker.
abbrev pub ReadsInside : ℕ → List ℕ → Type 0
ReadsInside blocksize buf =
    get_or buf (blocksize - 1) 0 ≡ blk_marker_sb
    → ver_superblock_support (get_u64 buf 0) ≡ true
    → read_length buf + 4 < blocksize

-- `get_checksum` of a number of bytes, by `crc_mode`.
module _ (get_checksum : List ℕ → ℕ → ℕ) where
  -- The block that `sb_write` makes of the values.
  pub block_of : ℕ → ℕ → List ℕ → List ℕ
  block_of blocksize crc_mode values =
      let offset = 8 * length values in
      let buf = put_all (calloc blocksize) 0 values in
      let crc = get_checksum (slice buf 0 offset) crc_mode in
      set (copy_at buf offset (put_be 4 crc)) (blocksize - 1) blk_marker_sb

  -- `wrote` says that `pwrite` wrote the whole block. What a failed write leaves in the block is
  -- not known; it is kept here, and `Recovery.Circular.reopened` puts any content there.
  unfoldable pub sb_write : Filemgr → Superblock → ℕ → Bool → Status × Superblock × (ℕ → List ℕ)
  unfolding block_of
  sb_write file sb sb_no wrote =
      let block = block_of file.blocksize file.crc_mode (stored_values file.version sb) in
      if wrote
      then (
        success,
        record sb { revnum = add64 sb.revnum 1 },
        λ n. if n == sb_no then block else file.disk n,
      )
      else (sb_race_condition, sb, file.disk)

  -- `got` says that `pread` read the whole block.
  unfoldable pub sb_read_given_no : Filemgr → Superblock → ℕ → Bool → Status × Superblock
  unfolding read_fields read_length
  sb_read_given_no file sb sb_no got =
      let buf = file.disk sb_no in
      let filled = read_fields sb buf in
      let offset = read_length buf in
      if not got
      then (sb_read_fail, sb)
      else if not (get_or buf (file.blocksize - 1) 0 == blk_marker_sb)
      then (sb_read_fail, sb)
      else if not (ver_superblock_support (get_u64 buf 0))
      then (sb_read_fail, sb)
      else if get_checksum (slice buf 0 offset) file.crc_mode == from_be 0 (slice buf offset 4)
      then (success, filled)
      else (sb_read_fail, record filled { bmp_doc_offset = none; bmp_docs = [] })
