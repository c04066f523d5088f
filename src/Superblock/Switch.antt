-- ===== src/Superblock/Switch.antt =====
-- `sb_switch_reserved_blocks` of src/superblock.cc.
use forestdb.Common.{
  ℕ, Option, List, Bool, none, false, [], suc, some, if◌then◌else◌, get_or, true, ◌∷◌, ◌++◌, ◌+◌,
  zero,
}
use forestdb.Superblock.State.{
  DocLength, BitmapDoc, RsvBmp, Superblock, Call, mark_stale, sync, fdb_get_docsize, is_ready,
}

empty_length : DocLength
empty_length = record { keylen = 0; metalen = 0; bodylen = 0; bodylen_ondisk = 0 }

pub empty_doc : BitmapDoc
unfolding empty_length
empty_doc = record { length = empty_length; key_revnum = 0; key_number = 0; body = 0; seqnum = 0 }

-- Marks the first `left` of the documents from `i` on as stale.
pub mark_docs : ℕ → ℕ → List ℕ → List BitmapDoc → List Call
mark_docs zero i offsets docs = []
mark_docs (suc left) i offsets docs =
    mark_stale (get_or offsets i 0) (fdb_get_docsize (get_or docs i empty_doc).length)
    ∷ mark_docs left (i + 1) offsets docs

-- The documents of the current bitmap, if there are any.
pub stale_docs : Superblock → List Call
stale_docs sb = elim sb.bmp_doc_offset [
  | none ↦ []
  | some offsets ↦ mark_docs sb.num_bmp_docs 0 offsets sb.bmp_docs
]

-- The copies between `sb_bmp_change_begin` and `sb_bmp_change_end`, and the release of `rsv`.
unfoldable pub take_reserved : Superblock → RsvBmp → Superblock
take_reserved sb rsv = record sb {
  bmp_prev = sb.bmp;
  bmp_prev_size = sb.bmp_size;
  bmp_revnum = rsv.bmp_revnum;
  bmp_size = rsv.bmp_size;
  bmp = rsv.bmp;
  bmp_idx = rsv.bmp_idx;
  bmp_doc_offset = rsv.bmp_doc_offset;
  bmp_docs = rsv.bmp_docs;
  num_bmp_docs = rsv.num_bmp_docs;
  num_free_blocks = rsv.num_free_blocks;
  num_init_free_blocks = rsv.num_free_blocks;
  cur_alloc_bid = rsv.cur_alloc_bid;
  min_live_hdr_revnum = rsv.min_live_hdr_revnum;
  min_live_hdr_bid = rsv.min_live_hdr_bid;
  rsv_bmp = none;
}

-- What `sb_switch_reserved_blocks` returns, with the superblock and the calls that it made.
pub record Switched : Type 0 where
  pub done : Bool
  pub sb : Superblock
  pub calls : List Call

unfoldable pub switch_rsv : Superblock → Option RsvBmp → Switched
switch_rsv sb none = record { done = false; sb = sb; calls = [] }
switch_rsv sb (some rsv) =
    if is_ready rsv.status
    then record { done = true; sb = take_reserved sb rsv; calls = stale_docs sb ++ sync ∷ [] }
    else record { done = false; sb = sb; calls = [] }

unfoldable pub sb_switch_reserved_blocks : Superblock → Switched
unfolding switch_rsv
sb_switch_reserved_blocks sb = switch_rsv sb sb.rsv_bmp
