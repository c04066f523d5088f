-- ===== src/Superblock/Decision/Laws.antt =====
-- The decisions agree with the state that they are taken in.
use forestdb.Superblock.State.{Superblock, RsvBmp}
use forestdb.Superblock.Alloc.{sb_alloc_block}
use forestdb.Superblock.Return.Empty.{alloc_nothing, alloc_no_bitmap, can_switch}
use forestdb.Superblock.Decision.{
  Handle, sbd_reclaim, exists_rsv, decide, sb_check_block_reusing, sb_update_header,
}
use forestdb.Common.{
  ℕ, Option, none, some, ◌≡◌, true, false, arith, refl, blk_not_found, Bool-cases, inl, inr, ◌⊎◌,
  ◌==◌, not, ◌&&◌, ltb,
}

exists_rsv-can_switch : (o : Option RsvBmp) → exists_rsv o ≡ false → can_switch o ≡ false
exists_rsv-can_switch none e = refl
exists_rsv-can_switch (some r) e = cc

reclaim_grounds :
    (h : Handle) (sb : Superblock)
    → decide h sb ≡ sbd_reclaim
    → (sb.bmp_size ≡ 0) ⊎ ((sb.num_free_blocks ≡ 0) × (exists_rsv sb.rsv_bmp ≡ false))
unfolding decide
reclaim_grounds h sb e = ground arith

-- If the decision is to reclaim at once, which replaces the bitmap and its state, then no block is
-- lost by it: `sb_alloc_block` would find none.
pub sb_check_block_reusing-sb_alloc_block :
    (h : Handle) (sb : Superblock) (live_datasize : ℕ)
    → sb_check_block_reusing h (some sb) live_datasize ≡ sbd_reclaim
    → (sb_alloc_block sb).ret ≡ blk_not_found
unfolding sb_check_block_reusing
sb_check_block_reusing-sb_alloc_block h sb live_datasize e =
    let decided : decide h sb ≡ sbd_reclaim = ground arith in
    elim (reclaim_grounds h sb decided) [
      | inl empty ↦ alloc_no_bitmap sb empty
      | inr (free, no_rsv) ↦ alloc_nothing sb free (exists_rsv-can_switch sb.rsv_bmp no_rsv)
    ]

-- A second `sb_update_header` with the same handle changes nothing and says so.
pub sb_update_header-twice :
    (h : Handle) (o : Option Superblock)
    → sb_update_header h (sb_update_header h o).1 ≡ (false, (sb_update_header h o).1)
unfolding sb_update_header
sb_update_header-twice h none = refl
sb_update_header-twice h (some sb) =
    elim (Bool-cases
      (not (sb.last_hdr_bid == h.last_hdr_bid) && ltb sb.last_hdr_revnum h.cur_header_revnum)) [
        | inl e ↦
            rw e
              (let same : (h.last_hdr_bid == h.last_hdr_bid) ≡ true = ground arith in rw same refl)
        | inr e ↦ rw (e, e) refl
      ]
