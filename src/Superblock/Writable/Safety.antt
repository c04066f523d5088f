-- ===== src/Superblock/Writable/Safety.antt =====
-- Which blocks may be overwritten, and how allocation makes a block writable.
use forestdb.Superblock.Alloc.Frame.{sb_alloc_block-Advanced}
use forestdb.Superblock.Alloc.{sb_alloc_block}
use forestdb.Superblock.Alloc.Spec.{IsValid}
use forestdb.Superblock.State.{Superblock, bytes}
use forestdb.Superblock.Bitmap.{is_bmp_set}
use forestdb.Superblock.Writable.{sb_bmp_is_writable, ℕ}
use forestdb.Common.{ℕ, ◌≡◌, true, ◌≤◌, ◌<◌, ◌/◌, ◌≢◌, arith, false}

-- A block before the last commit that is no superblock is writable only if the bitmap is newer
-- than the last commit's and the block is one of its reusable blocks that were handed out.
pub writable_before_commit :
    (sb : Superblock) (commit_pos blocksize lw_revnum bid : ℕ)
    → sb_bmp_is_writable sb commit_pos blocksize lw_revnum bid ≡ true
    → sb.num_sb ≤ bid
    → bid < commit_pos / blocksize
    → (sb.bmp_revnum ≢ lw_revnum)
      × (is_bmp_set (bytes sb.bmp) bid ≡ true)
      × (bid < sb.bmp_size)
      × (bid < sb.cur_alloc_bid)
unfolding sb_bmp_is_writable
writable_before_commit sb commit_pos blocksize lw_revnum bid h p q = ground arith

-- With the commit's own bitmap, a free block at or behind the last commit that is no superblock is
-- not writable before `sb_alloc_block` returns it, and is writable afterwards, as long as another
-- free block remains.
pub sb_alloc_block-writable :
    (sb : Superblock) (commit_pos blocksize : ℕ)
    → IsValid sb
    → 2 ≤ sb.num_free_blocks
    → sb.num_sb ≤ sb.cur_alloc_bid
    → commit_pos / blocksize ≤ sb.cur_alloc_bid
    → (sb_bmp_is_writable sb commit_pos blocksize sb.bmp_revnum (sb_alloc_block sb).ret ≡ false)
      × (sb_bmp_is_writable
            (sb_alloc_block sb).sb
            commit_pos
            blocksize
            sb.bmp_revnum
            (sb_alloc_block sb).ret
          ≡ true)
unfolding sb_bmp_is_writable
sb_alloc_block-writable sb commit_pos blocksize v two p q =
    let a = sb_alloc_block-Advanced sb v (omega arith) in
    let in_bitmap = v.current.in_bitmap (omega arith) in
    let bit = v.current.bit (omega arith) in
    rw (a.changed, a.returned)
      (ground (arith, a.above, in_bitmap, bit), ground (arith, a.above, in_bitmap, bit))
