-- ===== src/Superblock/Return/Empty.antt =====
-- After `sb_return_reusable_blocks` there is nothing to allocate.
use forestdb.Superblock.State.{Call, Superblock, RsvBmp, bytes, is_ready}
use forestdb.Superblock.Switch.{sb_switch_reserved_blocks, switch_rsv}
use forestdb.Superblock.Alloc.{sb_alloc_block, start_over}
use forestdb.Superblock.Bitmap.{is_bmp_set}
use forestdb.Common.{
  ℕ, List, Bool, Option, none, some, true, false, ◌≡◌, ◌<◌, ◌≤◌, refl, Bool-cases, inl, inr,
  blk_not_found, arith, ◌==◌, [], suc, add64, ◌∙◌,
}

-- Whether a reserve can be switched to.
abbrev pub can_switch : Option RsvBmp → Bool
can_switch none = false
can_switch (some rsv) = is_ready rsv.status

switch_rsv_lem : (sb : Superblock) (o : Option RsvBmp) → (switch_rsv sb o).done ≡ can_switch o
unfolding switch_rsv
switch_rsv_lem sb none = refl
switch_rsv_lem sb (some rsv) = elim (Bool-cases (is_ready rsv.status)) [
  | inl e ↦ rw e refl
  | inr e ↦ rw e refl
]

pub start_nothing :
    (fuel : ℕ) (sb : Superblock) (calls : List Call)
    → sb.num_free_blocks ≡ 0
    → (sb_switch_reserved_blocks sb).done ≡ false
    → (start_over (suc fuel) sb calls).ret ≡ blk_not_found
unfolding start_over
start_nothing fuel sb calls e sw =
    let free : (sb.num_free_blocks == 0) ≡ true = ground arith in
    elim (Bool-cases (sb.bmp_size == 0)) [ inl z ↦ rw z refl | inr z ↦ rw (z, free, sw) refl ]

pub alloc_nothing :
    (sb : Superblock)
    → sb.num_free_blocks ≡ 0
    → can_switch sb.rsv_bmp ≡ false
    → (sb_alloc_block sb).ret ≡ blk_not_found
unfolding sb_alloc_block sb_switch_reserved_blocks
alloc_nothing sb e c =
    let sb' = record sb { num_alloc = add64 sb.num_alloc 1 } in
    start_nothing 1 sb' [] e (switch_rsv_lem sb' sb.rsv_bmp ∙ c)

pub alloc_no_bitmap : (sb : Superblock) → sb.bmp_size ≡ 0 → (sb_alloc_block sb).ret ≡ blk_not_found
unfolding sb_alloc_block start_over
alloc_no_bitmap sb e = let empty : (sb.bmp_size == 0) ≡ true = ground arith in rw empty refl

-- The block is set in a reserve that is ready, at its current block or behind.
abbrev pub InReserve : Option RsvBmp → ℕ → Type 0
InReserve none b = ⊥
InReserve (some rsv) b =
    (is_ready rsv.status ≡ true)
    × (rsv.cur_alloc_bid ≤ b)
    × (b < rsv.bmp_size)
    × (is_bmp_set (bytes rsv.bmp) b ≡ true)
