-- ===== src/Superblock/Decision.antt =====
-- When blocks are reused and when the superblock is written: `sb_check_block_reusing`,
-- `sb_check_sync_period`, `sb_update_header` and `sb_reset_num_alloc` of src/superblock.cc. What
-- `fdb_estimate_space_used` (src/forestdb.cc) answers is an argument.
pub mod Laws
mod Tests
use forestdb.Superblock.State.{RsvBmp, Superblock, FileStatus, sb_bmp_exists}
use forestdb.Common.{
  ℕ, Bool, true, false, Option, none, some, if◌then◌else◌, not, ◌==◌, ◌||◌, ◌&&◌, leb, ltb, ◌*◌,
  ◌/◌, ◌+◌, ◌-◌,
}
use Prim.Native.Nat.{ℕ}

-- `sb_decision_t`
pub data Decision : Type 0 where
  sbd_none sbd_reclaim sbd_reserve sbd_switch : Decision

-- The parts of the handle, the file and the two configurations that the functions read.
pub record Handle : Type 0 where
  pub status : FileStatus
  pub file_pos : ℕ
  pub blocksize : ℕ
  pub block_reusing_threshold : ℕ
  pub num_keeping_headers : ℕ
  pub min_block_reuse_filesize : ℕ
  pub max_block_reusing_cycle : ℕ
  pub enable_reusable_block_reservation : Bool
  pub cur_header_revnum : ℕ
  pub last_hdr_bid : ℕ
  pub last_writable_bmp_revnum : ℕ

abbrev pub sb_pre_reclaim_ratio : ℕ
sb_pre_reclaim_ratio = 10

abbrev pub sb_min_block_reusing_filesize : ℕ
sb_min_block_reusing_filesize = 16777216

abbrev pub sb_sync_period : ℕ
sb_sync_period = 4194304

abbrev is_normal : FileStatus → Bool
is_normal FileStatus.normal = true
is_normal _ = false

abbrev pub exists_rsv : Option RsvBmp → Bool
exists_rsv none = false
exists_rsv (some r) = true

-- The conditions up to the comparison of the ratio: reusing is enabled, and the file has grown and
-- holds enough stale data.
unfoldable pub worth_reusing : Handle → Superblock → ℕ → Bool
worth_reusing h sb live_datasize =
    let filesize = h.file_pos in
    if not (is_normal h.status)
    then false
    else if h.block_reusing_threshold == 0 || leb 100 h.block_reusing_threshold
    then false
    else if ltb filesize h.min_block_reuse_filesize
    then false
    else if leb h.cur_header_revnum (sb.min_live_hdr_revnum + h.num_keeping_headers)
    then false
    else if filesize == 0 || live_datasize == 0 || ltb filesize live_datasize
    then false
    else not (leb ((filesize - live_datasize) * 100 / filesize) h.block_reusing_threshold)

-- What is to be done with a file that is worth it.
unfoldable pub decide : Handle → Superblock → Decision
decide h sb =
    if not (sb_bmp_exists sb)
    then sbd_reclaim
    else if not (h.max_block_reusing_cycle == 0) && leb h.max_block_reusing_cycle sb.bmp_revnum
    then sbd_none
    else if sb.num_free_blocks == 0
    then if exists_rsv sb.rsv_bmp then sbd_switch else sbd_reclaim
    else if h.enable_reusable_block_reservation
        && ltb (sb.num_free_blocks * 100) (sb.num_init_free_blocks * sb_pre_reclaim_ratio)
        && ltb sb_min_block_reusing_filesize (sb.num_init_free_blocks * h.blocksize)
    then sbd_reserve
    else sbd_none

-- Sizes and revision numbers are far below 2^64.
unfoldable pub sb_check_block_reusing : Handle → Option Superblock → ℕ → Decision
unfolding worth_reusing decide
sb_check_block_reusing h none live_datasize = sbd_none
sb_check_block_reusing h (some sb) live_datasize =
    if worth_reusing h sb live_datasize then decide h sb else sbd_none

pub sb_check_sync_period : Handle → Option Superblock → Bool
sb_check_sync_period h none = false
sb_check_sync_period h (some sb) = ltb sb_sync_period (sb.num_alloc * h.blocksize)

pub sb_reset_num_alloc : Option Superblock → Option Superblock
sb_reset_num_alloc none = none
sb_reset_num_alloc (some sb) = some (record sb { num_alloc = 0 })

-- The previous bitmap is released by the first commit on the current one.
pub sb_update_header : Handle → Option Superblock → Bool × Option Superblock
sb_update_header h none = (false, none)
sb_update_header h (some sb) =
    if not (sb.last_hdr_bid == h.last_hdr_bid) && ltb sb.last_hdr_revnum h.cur_header_revnum
    then (
      true,
      some (record sb {
        last_hdr_bid = h.last_hdr_bid;
        last_hdr_revnum = h.cur_header_revnum;
        bmp_prev = if h.last_writable_bmp_revnum == sb.bmp_revnum then none else sb.bmp_prev;
      }),
    )
    else (false, some sb)
