-- ===== src/FileManager/Tests.antt =====
-- A file whose superblock has one free block.
use forestdb.Superblock.State.{Superblock, Filemgr, FileStatus}
use forestdb.Superblock.Format.{sb_init_new}
use forestdb.Superblock.Bitmap.{is_bmp_set, basic_mask, mod8}
use forestdb.Superblock.Index.{search}
use forestdb.Superblock.Alloc.Blocks.{set_blocks}
use forestdb.Superblock.Alloc.Spec.{IsValid}
use forestdb.FileManager.Stale.{
  docblk_meta_size, filemgr_mark_stale, filemgr_actual_stale_regions, region_loop, add_regions,
  filemgr_add_stale_block, push_stale,
}
use forestdb.Stale.Merge.Tree.{covers}
use forestdb.FileManager.Stale.Count.{length-filemgr_actual_stale_regions}
use forestdb.FileManager.{filemgr_alloc}
use forestdb.FileManager.Alloc.{IsAllocated, filemgr_alloc-IsAllocated}
use forestdb.Version.{filemgr_magic_002, ver_non_consecutive_doc}
use forestdb.Common.{[], ◌∷◌, none, some, true, refl, arith, ℕ, length, ◌≡◌, ◌+◌, ◌≤◌, ◌/◌, ◌-◌}

abbrev one_free : Superblock
one_free = record (sb_init_new 4) {
  bmp_size = 8;
  bmp = some (0x04 ∷ []);
  bmp_idx = 0 ∷ [];
  num_free_blocks = 1;
  cur_alloc_bid = 5;
}

abbrev file : Filemgr
file = record {
  version = filemgr_magic_002;
  blocksize = 4096;
  pos = 32768;
  last_commit = 0;
  last_writable_bmp_revnum = 0;
  status = FileStatus.normal;
  crc_mode = 0;
  sb = some one_free;
  disk = λ n. [];
}

one_free-IsValid : IsValid one_free
unfolding set_blocks is_bmp_set basic_mask mod8 search sb_init_new
one_free-IsValid = record {
  current = record {
    exists = λ e. omega arith;
    in_bitmap = λ n. omega arith;
    bit = λ n. refl;
    counted = λ n. refl;
    ascending = λ n. tt;
    least = λ n j h. omega arith;
    covers = λ n c p q h. absurd (omega arith);
  };
  reserve = tt;
}

filemgr_alloc-IsAllocated_example :
    IsAllocated file
      (5, record { current = []; reserve = none })
      (filemgr_alloc true file).0
      (filemgr_alloc true file).1
unfolding set_blocks is_bmp_set basic_mask mod8 sb_init_new
filemgr_alloc-IsAllocated_example =
    filemgr_alloc-IsAllocated true file one_free refl refl one_free-IsValid

-- A document of 5000 bytes near the end of block 3, and then in blocks 5 and 7.
abbrev next_bid : ℕ → ℕ
next_bid bid = bid + 2

length-filemgr_actual_stale_regions_example :
    length (filemgr_actual_stale_regions next_bid file 16_288 5000)
    ≤ 5000 / (4096 - docblk_meta_size) + 2
length-filemgr_actual_stale_regions_example =
    length-filemgr_actual_stale_regions next_bid file 16_288 5000 (omega arith) (omega arith)
      (omega arith)

mark_three :
    filemgr_mark_stale next_bid file (some []) 16_288 5000
    ≡ some (
        record { pos = 16_288; len = 96 }
        ∷ record { pos = 20_480; len = 4096 }
        ∷ record { pos = 28_672; len = 840 }
        ∷ [])
unfolding filemgr_mark_stale filemgr_actual_stale_regions region_loop add_regions
    filemgr_add_stale_block push_stale ver_non_consecutive_doc
mark_three = refl
