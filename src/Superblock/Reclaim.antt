-- ===== src/Superblock/Reclaim.antt =====
-- `sb_reclaim_reusable_blocks` and `sb_reserve_next_reusable_blocks` of src/superblock.cc. What
-- src/staleblock.cc and the header list answer, a list of reusable regions and the smallest active
-- header, is an argument.
pub mod Fill
pub mod Pool
pub mod Ready
use forestdb.Superblock.State.{Superblock, RsvBmp, RsvStatus, Call, sync}
use forestdb.Superblock.Bitmap.{sb_bmp_set}
use forestdb.Superblock.Index.{add_bmp_idx, free_bmp_idx}
use forestdb.Common.{
  ℕ, List, Bool, true, ◌∷◌, ◌/◌, some, add64, none, replicate, false, if◌then◌else◌, [], ◌&&◌, ◌==◌,
  blk_not_found, ltb, calloc,
}
use Prim.Native.Nat.{ℕ}

-- `struct reusable_block` and `stale_header_info`
pub record Region : Type 0 where
  pub bid : ℕ
  pub count : ℕ

pub record StaleHeader : Type 0 where
  pub revnum : ℕ
  pub bid : ℕ

-- The variables of the loop over the regions.
pub record Filling : Type 0 where
  pub bmp : List ℕ
  pub idx : List ℕ
  pub free : ℕ
  pub cur : ℕ

-- The loop; `head` is `i == 0`.
pub fill_loop : Bool → List Region → Filling → Filling
fill_loop head [] f = f
fill_loop head (r ∷ rs) f = fill_loop false rs (record {
  bmp = sb_bmp_set f.bmp r.bid r.count;
  idx = add_bmp_idx f.idx r.bid r.count;
  free = add64 f.free r.count;
  cur = if head && f.cur == blk_not_found then r.bid else f.cur;
})

abbrev is_empty : List Region → Bool
is_empty [] = true
is_empty (r ∷ rs) = false

-- `assert_failed` is the end of the process by `fdb_assert`.
pub data Outcome : Type 0 where
  returns : Bool → Superblock → List Call → Outcome
  assert_failed : Outcome

-- The new state of the superblock, written between `sb_bmp_change_begin` and `sb_bmp_change_end`.
pub install : Superblock → ℕ → StaleHeader → Filling → Superblock
install sb num_blocks sheader f = record sb {
  bmp = some f.bmp;
  bmp_idx = f.idx;
  bmp_size = num_blocks;
  cur_alloc_bid = f.cur;
  num_free_blocks = f.free;
  min_live_hdr_revnum = sheader.revnum;
  min_live_hdr_bid = sheader.bid;
  bmp_revnum = add64 sb.bmp_revnum 1;
  num_init_free_blocks = f.free;
}

-- `num_blocks` is `filemgr_get_pos(file) / blocksize`.
pub sb_reclaim_reusable_blocks : Superblock → ℕ → ℕ → StaleHeader → List Region → Outcome
unfolding install
sb_reclaim_reusable_blocks sb pos blocksize sheader blist =
    let num_blocks = pos / blocksize in
    let filled = fill_loop true blist (record {
      bmp = calloc (add64 num_blocks 7 / 8);
      idx = free_bmp_idx sb.bmp_idx;
      free = sb.num_free_blocks;
      cur = sb.cur_alloc_bid;
    }) in
    if sheader.bid == blk_not_found
    then returns false sb (sync ∷ [])
    else if is_empty blist
    then returns false sb (sync ∷ [])
    else if ltb num_blocks 4
    then assert_failed
    else returns true (install sb num_blocks sheader filled) (sync ∷ [])

-- The reserved bitmap that is built; its documents are appended later.
pub new_reserve : Superblock → ℕ → StaleHeader → Filling → RsvBmp
new_reserve sb num_blocks sheader f = record {
  bmp_revnum = add64 sb.bmp_revnum 1;
  bmp_size = num_blocks;
  bmp = some f.bmp;
  bmp_idx = f.idx;
  bmp_doc_offset = none;
  bmp_docs = [];
  num_bmp_docs = 0;
  num_free_blocks = f.free;
  cur_alloc_bid = f.cur;
  min_live_hdr_revnum = sheader.revnum;
  min_live_hdr_bid = sheader.bid;
  status = RsvStatus.initializing;
}

pub sb_reserve_next_reusable_blocks :
    Superblock → ℕ → ℕ → StaleHeader → List Region → Bool × Superblock
unfolding new_reserve
sb_reserve_next_reusable_blocks sb pos blocksize sheader blist =
    let num_blocks = pos / blocksize in
    let filled =
      fill_loop true blist (record {
        bmp = calloc (add64 num_blocks 7 / 8);
        idx = [];
        free = 0;
        cur = blk_not_found;
      }) in
    elim sb.rsv_bmp [
      | some rsv ↦ (false, sb)
      | none ↦
          if sheader.bid == blk_not_found
          then (false, sb)
          else if is_empty blist
          then (false, sb)
          else if num_blocks == 0
          then (true, sb)
          else (true, record sb { rsv_bmp = some (new_reserve sb num_blocks sheader filled) })
    ]
