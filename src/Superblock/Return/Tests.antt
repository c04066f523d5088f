-- ===== src/Superblock/Return/Tests.antt =====
-- Blocks given back, and blocks missed, in a bitmap of 320 blocks.
use forestdb.Superblock.State.{Superblock}
use forestdb.Superblock.Format.{sb_init_new}
use forestdb.Superblock.Bitmap.{is_bmp_set, basic_mask, mod8}
use forestdb.Superblock.Index.{search}
use forestdb.Superblock.Return.{Returned, return_loop}
use forestdb.Superblock.Return.Skips.{return_loop_skips}
use forestdb.Common.{
  ℕ, List, [], ◌∷◌, some, true, false, ◌≡◌, ◌≤◌, ◌<◌, set, replicate, arith, refl,
}

-- Blocks 5 and 260 are free.
abbrev two_free : List ℕ
two_free = set (set (replicate 40 0) 0 0x04) 32 0x08

abbrev sample : Superblock
sample = record (sb_init_new 4) {
  bmp_size = 320;
  bmp = some two_free;
  bmp_idx = 0 ∷ 1 ∷ [];
  num_free_blocks = 2;
  cur_alloc_bid = 5;
}

return_loop_skips_example :
    (r : Returned) × (return_loop 316 two_free 320 5 (0 ∷ 1 ∷ []) ≡ some r)
    × ((b : ℕ) → 256 < b → b ≤ 512 → search b r.stale ≡ false)
return_loop_skips_example =
    return_loop_skips 316 two_free 320 5 (0 ∷ 1 ∷ []) 1 (omega arith) (omega arith) (omega arith)
      (omega arith) (omega arith)

-- Block 260 is free, in the index, and missed.
missed_bit : is_bmp_set two_free 260 ≡ true
unfolding is_bmp_set basic_mask mod8
missed_bit = refl
