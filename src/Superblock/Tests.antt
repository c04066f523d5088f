-- ===== src/Superblock/Tests.antt =====
-- The superblock's theorems at concrete inputs, and runs of its code.
use forestdb.Superblock.State.{RsvStatus, sync, Superblock, RsvBmp}
use forestdb.Superblock.Reclaim.{
  StaleHeader, returns, sb_reclaim_reusable_blocks, sb_reserve_next_reusable_blocks,
}
use forestdb.Superblock.Reclaim.Ready.{sb_reclaim-pools, sb_reserve-pool}
use forestdb.Superblock.Alloc.Spec.{rsv_pool, RsvIsPool, IsValid, pools}
use forestdb.Common.{
  ℕ, [], ◌∷◌, length, List, some, true, none, ◌≡◌, set, replicate, arith, if◌then◌else◌, refl, ◌≤◌,
  ◌<◌, ◌/◌, blk_not_found, ◌≢◌, inl,
}
use forestdb.Superblock.Bitmap.{basic_mask, mod8, is_bmp_set, sb_bmp_update}
use forestdb.Superblock.Bitmap.Update.{sb_bmp_update-IsUpdated}
use forestdb.Superblock.Bitmap.Writes.{in_range}
use forestdb.Superblock.Index.{search, construct_bmp_idx}
use forestdb.Superblock.Index.Construct.{construct_bmp_idx-is_bmp_set}
use forestdb.Superblock.Writable.{sb_bmp_is_writable, same_revnum, other_revnum, behind_commit}
use forestdb.Superblock.Writable.Safety.{writable_before_commit}
use forestdb.Superblock.Alloc.{sb_alloc_block}
use forestdb.Superblock.Alloc.Blocks.{set_blocks}
use forestdb.Superblock.Alloc.Refine.{Implements}
use forestdb.Superblock.Alloc.Take.{sb_alloc_block-Implements, alloc_many, alloc_many-take}

-- 320 blocks, of which 5 and 260 are free.
abbrev two_free : List ℕ
two_free = set (set (replicate 40 0) 0 0x04) 32 0x08

abbrev sample : Superblock
sample = record {
  num_sb = 4;
  revnum = 7;
  bmp_revnum = 1;
  bmp_size = 320;
  bmp = some two_free;
  bmp_prev_size = 0;
  bmp_prev = none;
  bmp_idx = 0 ∷ 1 ∷ [];
  bmp_doc_offset = none;
  bmp_docs = [];
  num_bmp_docs = 0;
  num_init_free_blocks = 2;
  num_free_blocks = 2;
  rsv_bmp = none;
  cur_alloc_bid = 5;
  last_hdr_bid = 9;
  min_live_hdr_revnum = 1;
  min_live_hdr_bid = 8;
  last_hdr_revnum = 3;
  num_alloc = 0;
}

sample_covers :
    (c : ℕ)
    → 256 ≤ c
    → c < 320
    → is_bmp_set two_free c ≡ true
    → search (c / 256) (0 ∷ 1 ∷ []) ≡ true
unfolding search
sample_covers c p q h = let node : c / 256 ≡ 1 = omega arith in rw node

sample-IsValid : IsValid sample
unfolding set_blocks is_bmp_set basic_mask mod8 search
sample-IsValid = record {
  current = record {
    exists = λ e. omega arith;
    in_bitmap = λ n. omega arith;
    bit = λ n. refl;
    counted = λ n. refl;
    ascending = λ n. omega arith;
    least = λ n j h. omega arith;
    covers = λ n. sample_covers;
  };
  reserve = tt;
}

sb_alloc_block-Implements_example :
    Implements (sb_alloc_block sample) (5, record { current = 260 ∷ []; reserve = none })
unfolding set_blocks is_bmp_set basic_mask mod8
sb_alloc_block-Implements_example = sb_alloc_block-Implements sample sample-IsValid

alloc_many-take_example : (alloc_many 2 sample).0 ≡ 5 ∷ 260 ∷ []
unfolding set_blocks is_bmp_set basic_mask mod8
alloc_many-take_example = alloc_many-take 2 sample sample-IsValid refl (omega arith)

sb_bmp_update-IsUpdated_example :
    (length (sb_bmp_update two_free 250 20 true) ≡ 40)
    × ((b : ℕ)
        → is_bmp_set (sb_bmp_update two_free 250 20 true) b
          ≡ (if in_range 250 20 b then true else is_bmp_set two_free b))
sb_bmp_update-IsUpdated_example =
    sb_bmp_update-IsUpdated two_free 250 20 true (omega arith) (omega arith)

-- Groups 0 and 5 are not zero.
abbrev two_groups : List ℕ
two_groups = set (set (replicate 64 0) 0 0x80) 40 0x80

set_320 : is_bmp_set two_groups 320 ≡ true
unfolding is_bmp_set basic_mask mod8
set_320 = refl

construct_bmp_idx-is_bmp_set_example : search 1 (construct_bmp_idx [] two_groups 512 0) ≡ true
construct_bmp_idx-is_bmp_set_example =
    construct_bmp_idx-is_bmp_set two_groups 512 0 320 (omega arith) (omega arith) set_320
      (inl (omega arith, omega arith))

-- A superblock with nothing to allocate, in a file of 512 blocks of 4096 bytes.
abbrev drained : Superblock
drained = record sample { num_free_blocks = 0; cur_alloc_bid = blk_not_found }

abbrev old_header : StaleHeader
old_header = record { revnum = 6; bid = 12 }

sb_reclaim-pools_example :
    (after : Superblock) × (sb_reclaim_reusable_blocks drained 2_097_152 4096 old_header
        (record { bid = 100; count = 3 } ∷ record { bid = 300; count = 2 } ∷ [])
      ≡ returns true after (sync ∷ []))
    × ((pools after).current ≡ 100 ∷ 101 ∷ 102 ∷ 300 ∷ 301 ∷ [])
    × (after.rsv_bmp ≡ none)
    × IsValid after
sb_reclaim-pools_example =
    sb_reclaim-pools drained 2_097_152 4096 old_header (record { bid = 100; count = 3 })
      (record { bid = 300; count = 2 } ∷ []) refl refl (omega arith) (omega arith) (omega arith)
      (omega arith) tt

sb_reserve-pool_example :
    (rsv : RsvBmp) × (sb_reserve_next_reusable_blocks sample 2_097_152 4096 old_header
        (record { bid = 7; count = 2 } ∷ [])
      ≡ (true, record sample { rsv_bmp = some rsv }))
    × (rsv_pool rsv ≡ 7 ∷ 8 ∷ [])
    × (rsv.status ≡ RsvStatus.initializing)
    × (rsv.bmp_revnum ≡ 2)
    × RsvIsPool rsv
sb_reserve-pool_example =
    sb_reserve-pool sample 2_097_152 4096 old_header (record { bid = 7; count = 2 }) [] refl
      (omega arith) (omega arith) (omega arith)

-- The commit at block 300 has an older bitmap.
writable_before_commit_example :
    (sample.bmp_revnum ≢ 0) × (is_bmp_set two_free 5 ≡ true) × (5 < 320) × (5 < 260)
unfolding sb_bmp_is_writable same_revnum other_revnum behind_commit is_bmp_set basic_mask mod8
writable_before_commit_example =
    writable_before_commit (record sample { cur_alloc_bid = 260 }) 1_228_800 4096 0 5 refl
      (omega arith) (omega arith)
