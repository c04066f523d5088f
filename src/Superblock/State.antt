-- ===== src/Superblock/State.antt =====
-- The structures of src/superblock.h, and the parts of `struct filemgr` and of documents that the
-- superblock uses. A pointer that may be NULL is an option; locks and reference counts, which
-- only order threads, are modelled on their own.
use forestdb.Common.{ℕ, ◌+◌, Option, Bool, not, true, List, ◌==◌, false, [], some, none}

-- `struct docio_length` and the fields of `struct docio_object` that the bitmap documents use.
-- `body` is the offset in the bitmap that the body points to.
pub record DocLength : Type 0 where
  pub keylen : ℕ
  pub metalen : ℕ
  pub bodylen : ℕ
  pub bodylen_ondisk : ℕ

pub record BitmapDoc : Type 0 where
  pub length : DocLength
  pub key_revnum : ℕ
  pub key_number : ℕ
  pub body : ℕ
  pub seqnum : ℕ

-- `_fdb_get_docsize`: the lengths, the 16 bytes of `struct docio_length`, the timestamp (4 bytes),
-- the sequence number (8 bytes) and the checksum (4 bytes).
pub fdb_get_docsize : DocLength → ℕ
fdb_get_docsize len = len.keylen + len.metalen + len.bodylen_ondisk + 16 + 4 + 8 + 4

-- The values of `sb_rsv_bmp.status`.
pub data RsvStatus : Type 0 where
  void initializing writing ready : RsvStatus

pub record RsvBmp : Type 0 where
  pub bmp_revnum : ℕ
  pub bmp_size : ℕ
  pub bmp : Option (List ℕ)
  pub bmp_idx : List ℕ
  pub bmp_doc_offset : Option (List ℕ)
  pub bmp_docs : List BitmapDoc
  pub num_bmp_docs : ℕ
  pub num_free_blocks : ℕ
  pub cur_alloc_bid : ℕ
  pub min_live_hdr_revnum : ℕ
  pub min_live_hdr_bid : ℕ
  pub status : RsvStatus

pub record Superblock : Type 0 where
  pub num_sb : ℕ
  pub revnum : ℕ
  pub bmp_revnum : ℕ
  pub bmp_size : ℕ
  pub bmp : Option (List ℕ)
  pub bmp_prev_size : ℕ
  pub bmp_prev : Option (List ℕ)
  pub bmp_idx : List ℕ
  pub bmp_doc_offset : Option (List ℕ)
  pub bmp_docs : List BitmapDoc
  pub num_bmp_docs : ℕ
  pub num_init_free_blocks : ℕ
  pub num_free_blocks : ℕ
  pub rsv_bmp : Option RsvBmp
  pub cur_alloc_bid : ℕ
  pub last_hdr_bid : ℕ
  pub min_live_hdr_revnum : ℕ
  pub min_live_hdr_bid : ℕ
  pub last_hdr_revnum : ℕ
  pub num_alloc : ℕ

-- The calls into the file manager, oldest first.
pub data Call : Type 0 where
  mark_stale : ℕ → ℕ → Call
  add_stale_block : ℕ → ℕ → Call
  sync : Call

-- The bytes behind a pointer to a bitmap; NULL is never read through.
abbrev pub bytes : Option (List ℕ) → List ℕ
bytes none = []
bytes (some b) = b

-- `sb_bmp_exists` on a superblock that is there
abbrev pub sb_bmp_exists : Superblock → Bool
sb_bmp_exists sb = not (sb.bmp_size == 0)

abbrev pub is_ready : RsvStatus → Bool
is_ready ready = true
is_ready _ = false

abbrev pub is_initializing : RsvStatus → Bool
is_initializing initializing = true
is_initializing _ = false

-- The status of a file (common.h).
pub data FileStatus : Type 0 where
  normal compact_old compact_new closed removed_pending : FileStatus

-- The parts of `struct filemgr` that the superblock uses. `disk` is the file's content, a list of
-- bytes for each block; `crc_mode` is passed on to the checksum.
pub record Filemgr : Type 0 where
  pub version : ℕ
  pub blocksize : ℕ
  pub pos : ℕ
  pub last_commit : ℕ
  pub last_writable_bmp_revnum : ℕ
  pub status : FileStatus
  pub crc_mode : ℕ
  pub sb : Option Superblock
  pub disk : ℕ → List ℕ

-- The codes of fdb_errors.h that the superblock returns.
pub data Status : Type 0 where
  success sb_init_fail sb_race_condition sb_read_fail : Status
