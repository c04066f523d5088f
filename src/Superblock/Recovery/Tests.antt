-- ===== src/Superblock/Recovery/Tests.antt =====
-- A superblock with two bitmap documents and a ready reserve, written and read back, whole or torn.
use forestdb.Superblock.State.{Superblock, RsvBmp, RsvStatus, Filemgr, FileStatus, success}
use forestdb.Superblock.Format.{
  ReadsInside, sb_init_new, stored_values, sb_write, sb_read_given_no, bmp_size_to_num_docs,
  entries, rsv_size, rsv_offsets,
}
use forestdb.Superblock.Format.RoundTrip.{sb_read_given_no-sb_write}
use forestdb.Superblock.Format.Restored.{restored}
use forestdb.Superblock.Recovery.{
  is_success, revnum_limit, read_one, sb_read_latest, sb_sync_circular,
}
use forestdb.Superblock.Recovery.Latest.{Candidate, revnum_of, IsLatest, sb_read_latest-IsLatest}
use forestdb.Superblock.Recovery.Circular.{
  reopened, torn_sync-recovers, sb_read_latest-sb_sync_circular,
}
use forestdb.Superblock.Format.Fields.{AllSmall}
use forestdb.Version.{filemgr_magic_002, ver_superblock_support}
use forestdb.Common.{
  ℕ, none, List, some, true, ◌∷◌, [], length, ◌≡◌, arith, ◌%◌, ◌^◌, refl, ◌<◌, ◌*◌, ap, Bool, ◌+◌,
}

abbrev reserve : RsvBmp
reserve = record {
  bmp_revnum = 5;
  bmp_size = 9000000;
  bmp = none;
  bmp_idx = [];
  bmp_doc_offset = some (30000 ∷ 40000 ∷ []);
  bmp_docs = [];
  num_bmp_docs = 2;
  num_free_blocks = 3;
  cur_alloc_bid = 20;
  min_live_hdr_revnum = 1;
  min_live_hdr_bid = 8;
  status = RsvStatus.ready;
}

abbrev written : Superblock
written = record (sb_init_new 4) {
  revnum = 7;
  bmp_revnum = 4;
  bmp_size = 8500000;
  bmp_doc_offset = some (10000 ∷ 20000 ∷ []);
  rsv_bmp = some reserve;
}

abbrev file : Filemgr
file = record {
  version = filemgr_magic_002;
  blocksize = 256;
  pos = 1024;
  last_commit = 0;
  last_writable_bmp_revnum = 0;
  status = FileStatus.normal;
  crc_mode = 0;
  sb = none;
  disk = λ n. [];
}

-- A checksum in place of the one that is a parameter: the number of bytes.
abbrev count_bytes : List ℕ → ℕ → ℕ
count_bytes l mode = length l % 2 ^ 32

sb_read_given_no-sb_write_example :
    sb_read_given_no count_bytes
      (record file { disk = (sb_write count_bytes file written 2 true).2 })
      (sb_init_new 4)
      2
      true
    ≡ (success, restored (sb_init_new 4) written)
unfolding sb_init_new stored_values entries rsv_size rsv_offsets bmp_size_to_num_docs
    ver_superblock_support
sb_read_given_no-sb_write_example =
    sb_read_given_no-sb_write count_bytes file written (sb_init_new 4) 2 refl (ground arith)
      (omega arith) (λ l mode. omega arith)

-- The values of the superblock that is written fit 64 bits.
small : AllSmall (stored_values filemgr_magic_002 written)
unfolding sb_init_new stored_values entries rsv_size rsv_offsets bmp_size_to_num_docs
small = ground arith

fits : 8 * length (stored_values filemgr_magic_002 written) + 4 < 256
unfolding sb_init_new stored_values entries rsv_size rsv_offsets bmp_size_to_num_docs
fits = omega arith

abbrev all_read : ℕ → Bool
all_read i = true

sb_read_latest-IsLatest_example :
    IsLatest count_bytes file 4 all_read (sb_read_latest count_bytes file 4 all_read)
sb_read_latest-IsLatest_example = sb_read_latest-IsLatest count_bytes file 4 all_read

-- Nothing can be read from a file without contents.
nothing_readable : (i : ℕ) → Candidate count_bytes file 4 all_read i → ⊥
unfolding read_one sb_read_given_no
nothing_readable i c = let r = c.readable in cc

sb_read_latest-sb_sync_circular_example :
    (sb_read_latest count_bytes
      (record ((sb_sync_circular count_bytes file written true).1) { sb = none })
      4
      all_read).1.sb
    ≡ some (record (restored (sb_init_new 4) written) { revnum = 8; bmp_idx = [] })
unfolding sb_init_new ver_superblock_support
sb_read_latest-sb_sync_circular_example =
    sb_read_latest-sb_sync_circular count_bytes file written all_read refl small fits
      (λ l mode. omega arith) refl (omega arith) (omega arith)
      (λ i ne c. absurd (nothing_readable i c))

-- The file with revision 7 in block 3, where revision 8 is torn in block 0.
abbrev synced : Filemgr
synced = record file { disk = (sb_write count_bytes file written 3 true).2 }

synced-Candidate : Candidate count_bytes synced 4 all_read 3
unfolding read_one sb_init_new ver_superblock_support revnum_limit restored
synced-Candidate =
    let read =
      sb_read_given_no-sb_write count_bytes file written (sb_init_new 4) 3 refl small fits
        (λ l mode. omega arith) in
    record {
      inside = omega arith;
      readable = ap (λ t. is_success (t.0)) read;
      older = omega (arith, ap (λ t. t.1.revnum) read);
    }

-- The block that is torn has no marker.
torn_inside : ReadsInside 256 (1 ∷ 2 ∷ [])
torn_inside marker version = absurd (ground (arith, marker))

torn_sync-recovers_example :
    (ret : Superblock) × ((sb_read_latest count_bytes (reopened synced 0 (1 ∷ 2 ∷ [])) 4 all_read).0
      ≡ success)
    × ((sb_read_latest count_bytes (reopened synced 0 (1 ∷ 2 ∷ [])) 4 all_read).1.sb ≡ some ret)
    × (revnum_of count_bytes synced 4 all_read 3 < ret.revnum)
unfolding sb_init_new
torn_sync-recovers_example =
    torn_sync-recovers count_bytes synced (record written { revnum = 8 }) (1 ∷ 2 ∷ []) all_read 3
      torn_inside (omega arith) synced-Candidate
