-- ===== src/FileManager/Offset.antt =====
-- `filemgr_is_writable`, `filemgr_write_offset`, `filemgr_read` and `filemgr_alloc_multiple_cond` of
-- src/filemgr.cc with the block cache disabled (`global_config.ncacheblock` is 0) and without
-- encryption. The calls of the operating system and the checksum are parameters.

pub mod Laws
use forestdb.Common.Bytes.{slice, copy_at, put_be, from_be}
use forestdb.Superblock.State.{Superblock, Filemgr, sb_bmp_exists}
use forestdb.Superblock.Writable.{sb_bmp_is_writable}
use forestdb.Common.{
  ℕ, List, Bool, Option, if◌then◌else◌, leb, ltb, ◌==◌, ◌+◌, ◌-◌, ◌*◌, ◌/◌, ◌&&◌, not, get_or,
  length, true, false, none, some, replicate, set, add64, mul64, sub64, blk_not_found,
}
use Prim.Native.Nat.{ℕ}

abbrev pub blk_marker_bnode : ℕ
blk_marker_bnode = 0xff

abbrev pub btree_crc_offset : ℕ
btree_crc_offset = 8

-- `sb_bmp_exists(file->sb)`
abbrev pub reuses_blocks : Option Superblock → Bool
reuses_blocks none = false
reuses_blocks (some sb) = sb_bmp_exists sb

-- `sb_ops.is_writable`
abbrev pub in_bitmap : Filemgr → Option Superblock → ℕ → Bool
in_bitmap file none bid = false
in_bitmap file (some sb) bid =
    sb_bmp_is_writable sb file.last_commit file.blocksize file.last_writable_bmp_revnum bid

-- `filemgr_is_writable`
unfoldable pub filemgr_is_writable : Filemgr → ℕ → Bool
filemgr_is_writable file bid =
    let pos = bid * file.blocksize in
    if reuses_blocks file.sb
    then in_bitmap file file.sb bid
    else ltb pos file.pos && leb file.last_commit pos

-- The superblocks, which may be written anywhere.
abbrev pub in_superblocks : Filemgr → Option Superblock → ℕ → Bool
in_superblocks file none pos = false
in_superblocks file (some sb) pos = ltb pos (sb.num_sb * file.blocksize)

-- The tests that `filemgr_write_offset` makes first.
unfoldable pub may_write : Filemgr → ℕ → ℕ → ℕ → Bool
may_write file bid offset len =
    let pos = bid * file.blocksize + offset in
    if ltb file.blocksize (offset + len)
    then false
    else if reuses_blocks file.sb
    then in_bitmap file file.sb bid
    else if ltb pos file.last_commit
    then in_superblocks file file.sb pos
    else true

-- `filemgr_alloc_multiple_cond`. The byte that is written lies behind the blocks.
unfoldable pub filemgr_alloc_multiple_cond : Filemgr → ℕ → ℕ → (ℕ × ℕ × ℕ) × Filemgr
filemgr_alloc_multiple_cond file nextbid nblock =
    let bid = file.pos / file.blocksize in
    let pos = add64 file.pos (mul64 file.blocksize nblock) in
    if bid == nextbid
    then (
      (bid, bid, sub64 (add64 bid nblock) 1),
      record file {
        pos = pos;
        disk = λ n. if n == pos / file.blocksize then set (file.disk n) 0 0 else file.disk n;
      },
    )
    else ((bid, blk_not_found, blk_not_found), file)

module _ (get_checksum : List ℕ → ℕ → ℕ) (pread : (ℕ → List ℕ) → ℕ → Option (List ℕ))
    (pwrite : (ℕ → List ℕ) → ℕ → ℕ → List ℕ → Bool × (ℕ → List ℕ)) where
  -- A whole node of a B+tree gets its checksum.
  unfoldable pub sealed : Filemgr → List ℕ → List ℕ
  sealed file buf =
      let cleared = copy_at buf btree_crc_offset (replicate 8 0xff) in
      if length buf == file.blocksize && get_or buf (file.blocksize - 1) 0 == blk_marker_bnode
      then copy_at cleared btree_crc_offset (put_be 4 (get_checksum cleared file.crc_mode))
      else buf

  -- `filemgr_write_offset`
  unfoldable pub filemgr_write_offset : Filemgr → ℕ → ℕ → List ℕ → Bool × Filemgr
  unfolding may_write sealed
  filemgr_write_offset file bid offset buf =
      let out = pwrite file.disk bid offset (sealed file buf) in
      if may_write file bid offset (length buf)
      then (out.0, record file { disk = out.1 })
      else (false, file)

  -- `_filemgr_crc32_check`, which clears the field of the checksum in the buffer.
  unfoldable pub filemgr_crc32_check : Filemgr → List ℕ → Option (List ℕ)
  filemgr_crc32_check file buf =
      let cleared = copy_at buf btree_crc_offset (replicate 8 0xff) in
      if get_or buf (file.blocksize - 1) 0 == blk_marker_bnode
      then if get_checksum cleared file.crc_mode == from_be 0 (slice buf btree_crc_offset 4)
        then some cleared
        else none
      else some buf

  abbrev pub checked : Filemgr → Option (List ℕ) → Option (List ℕ)
  checked file none = none
  checked file (some buf) = filemgr_crc32_check file buf

  -- `filemgr_read`
  unfoldable pub filemgr_read : Filemgr → ℕ → Option (List ℕ)
  unfolding filemgr_crc32_check
  filemgr_read file bid =
      if leb file.pos (bid * file.blocksize) then none else checked file (pread file.disk bid)
