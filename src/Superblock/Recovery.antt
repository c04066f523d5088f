-- ===== src/Superblock/Recovery.antt =====
-- Which superblock is used and where the next is written: `sb_read_latest`, `sb_sync_circular`,
-- `sb_update_header`, `sb_check_sync_period` and `sb_reset_num_alloc` of src/superblock.cc. The
-- block size of the file and of its configuration are the same number.
pub mod Latest
pub mod Circular
mod Tests
use forestdb.Superblock.State.{Superblock, Filemgr, Status, success, sb_read_fail}
use forestdb.Superblock.Format.{sb_init_new, sb_write, sb_read_given_no}
use forestdb.Common.{
  List, ℕ, Option, none, some, Bool, true, false, if◌then◌else◌, ◌==◌, ◌&&◌, not, leb, ltb, add64,
  sub64, mul64, blk_not_found, ◌%◌, ◌+◌, zero, ◌^◌, [], ◌-◌,
}
use Prim.Native.Nat.{ℕ, suc}

abbrev pub is_success : Status → Bool
is_success success = true
is_success _ = false

-- `max_sb_no` and `max_revnum`
pub record Best : Type 0 where
  pub max_sb_no : ℕ
  pub max_revnum : ℕ

-- `revnum_limit`: the superblock in use denotes the revision that would be written next.
unfoldable pub revnum_limit : Option Superblock → ℕ
revnum_limit none = 2 ^ 64 - 1
revnum_limit (some sb) = sub64 sb.revnum 1

module _ (get_checksum : List ℕ → ℕ → ℕ) where
  -- `_sb_init` and `_sb_read_given_no` of one element of `sb_arr`
  unfoldable pub read_one : Filemgr → ℕ → (ℕ → Bool) → ℕ → Status × Superblock
  read_one file num_sb got i = sb_read_given_no get_checksum file (sb_init_new num_sb) i (got i)

  -- One round of the loop that reads all superblocks.
  pub better : Filemgr → ℕ → (ℕ → Bool) → ℕ → ℕ → Best → Best
  better file num_sb got limit i best =
      let read = read_one file num_sb got i in
      if is_success (read.0) && leb best.max_revnum read.1.revnum && ltb read.1.revnum limit
      then record { max_sb_no = i; max_revnum = read.1.revnum }
      else best

  -- The rounds from `i` on, `n` of them.
  pub read_loop : Filemgr → ℕ → (ℕ → Bool) → ℕ → ℕ → ℕ → Best → Best
  read_loop file num_sb got limit i zero best = best
  read_loop file num_sb got limit i (suc n) best =
      read_loop file num_sb got limit (i + 1) n (better file num_sb got limit i best)

  pub latest : Filemgr → ℕ → (ℕ → Bool) → Best
  unfolding revnum_limit
  latest file num_sb got =
      read_loop file num_sb got (revnum_limit file.sb) 0 num_sb
        (record { max_sb_no = num_sb; max_revnum = 0 })

  -- `got i` says that `pread` read the whole block `i`.
  pub sb_read_latest : Filemgr → ℕ → (ℕ → Bool) → Status × Filemgr
  unfolding latest
  sb_read_latest file num_sb got =
      let best = latest file num_sb got in
      let sb = (read_one file num_sb got best.max_sb_no).1 in
      if best.max_sb_no == num_sb then (sb_read_fail, record file { sb = none }) else (
        success,
        record file {
          sb = some (record sb { revnum = add64 sb.revnum 1; bmp_idx = [] });
          last_commit =
              if sb.cur_alloc_bid == blk_not_found
              then file.last_commit
              else mul64 sb.cur_alloc_bid file.blocksize;
        },
      )

  -- `sb_sync_circular`, for a file with a superblock; `wrote` is the outcome of `pwrite`.
  pub sb_sync_circular : Filemgr → Superblock → Bool → Status × Filemgr
  sb_sync_circular file sb wrote =
      let r = sb_write get_checksum file sb (sb.revnum % sb.num_sb) wrote in
      (r.0, record file { sb = some (r.1); disk = r.2 })
