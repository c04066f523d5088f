-- ===== src/Superblock/Decision/Tests.antt =====
-- A file of 64 MB with 16 MB of live data, in which no block has been reused so far.
use forestdb.Superblock.State.{FileStatus}
use forestdb.Superblock.Format.{sb_init_new}
use forestdb.Superblock.Alloc.{sb_alloc_block}
use forestdb.Superblock.Decision.{Handle, sb_check_block_reusing, worth_reusing, decide}
use forestdb.Superblock.Decision.Laws.{sb_check_block_reusing-sb_alloc_block}
use forestdb.Common.{◌≡◌, true, refl, blk_not_found}

abbrev handle : Handle
handle = record {
  status = FileStatus.normal;
  file_pos = 67108864;
  blocksize = 4096;
  block_reusing_threshold = 65;
  num_keeping_headers = 5;
  min_block_reuse_filesize = 16777216;
  max_block_reusing_cycle = 0;
  enable_reusable_block_reservation = true;
  cur_header_revnum = 9;
  last_hdr_bid = 700;
  last_writable_bmp_revnum = 0;
}

sb_check_block_reusing-sb_alloc_block_example : (sb_alloc_block (sb_init_new 4)).ret ≡ blk_not_found
unfolding sb_check_block_reusing worth_reusing decide sb_init_new
sb_check_block_reusing-sb_alloc_block_example =
    sb_check_block_reusing-sb_alloc_block handle (sb_init_new 4) 16777216 refl
