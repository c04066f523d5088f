-- ===== src/Docio/Append.antt =====
-- `docio_append_doc_raw` of src/docio.cc, without DOCIO_BLOCK_ALIGN. Results carry the handle and the
-- file; none is `BLK_NOT_FOUND`. `offset`, `nblock` and `remain` are of the type `uint32_t`.
pub mod Blocks
pub mod Loop
pub mod Failure
pub mod Places
pub mod Documents
pub mod Counts
pub mod Stores
pub mod Front
pub mod Linked
use forestdb.Common.Bytes.{slice}
use forestdb.FileManager.Interface.{FileOps}
use forestdb.Docio.{Handle, docio_length_size, blk_marker_doc, blocksize, docblk_meta, sub32, ℕ}
use forestdb.Version.{ver_non_consecutive_doc}
use forestdb.Common.{
  ℕ, ◌%◌, if◌then◌else◌, Bool, List, leb, Option, ◌==◌, false, [], true, ltb, ◌^◌, blk_not_found,
  ◌+◌, ◌*◌, suc, ◌∷◌, ◌-◌, calloc, sub64, zero, not, none, some, ◌/◌, ◌&&◌,
}

-- The link of a block: the block behind it in the list.
abbrev pub next_of : List (ℕ × ℕ) → ℕ
next_of [] = blk_not_found
next_of ((bid, hash) ∷ blocks) = bid

module _ (F : FileOps) (version real_blocksize : ℕ) where
  abbrev space : ℕ
  space = blocksize version real_blocksize

  -- `_docio_fill_zero`
  unfoldable pub docio_fill_zero : F.State → ℕ → ℕ → Bool × F.State
  docio_fill_zero s bid pos =
      if leb (pos + docio_length_size) space
      then F.write_offset s bid pos (calloc docio_length_size) false
      else (true, s)

  -- The metadata of a block, or `_add_blk_marker`.
  unfoldable pub write_meta : F.State → ℕ → ℕ → ℕ → Bool × F.State
  write_meta s bid next_bid hash =
      if ver_non_consecutive_doc version
      then F.write_offset s bid space (docblk_meta next_bid hash) false
      else F.write_offset s bid space (blk_marker_doc ∷ []) false

  unfoldable pub bmp_revnum_hash : F.State → ℕ
  bmp_revnum_hash s = F.sb_bmp_revnum s % 2 ^ 16

  unfoldable pub new_block : F.State → Handle × F.State
  unfolding bmp_revnum_hash
  new_block s = (
    record { curblock = (F.alloc s).0; curpos = 0; cur_bmp_revnum_hash = bmp_revnum_hash s },
    (F.alloc s).1,
  )

  -- The current block is not written to any more; the rest of it is stale.
  unfoldable pub leave_block : Handle → F.State → F.State
  leave_block h s =
      if ltb h.curpos real_blocksize
      then F.mark_stale s (real_blocksize * h.curblock + h.curpos) (sub64 space h.curpos)
      else s

  -- A block that can be written to, the first part of the function.
  unfoldable pub ready : Handle → F.State → Handle × F.State
  unfolding new_block leave_block
  ready h s =
      let first = if h.curblock == blk_not_found then new_block s else (h, s) in
      if F.is_writable first.1 first.0.curblock
      then first
      else new_block (leave_block first.0 first.1)

  -- The document fits into the current block.
  unfoldable pub append_here : Handle → F.State → ℕ → List ℕ → Option ℕ × Handle × F.State
  unfolding write_meta docio_fill_zero
  append_here h s size buf =
      let meta = write_meta s h.curblock blk_not_found h.cur_bmp_revnum_hash in
      let written =
        F.write_offset meta.1 h.curblock h.curpos (slice buf 0 size)
          (size == sub64 space h.curpos) in
      let h' = record h { curpos = h.curpos + size } in
      let filled = docio_fill_zero written.1 h.curblock h'.curpos in
      if meta.0
      then if written.0
        then if filled.0
          then (some (h.curblock * real_blocksize + h.curpos), h', filled.1)
          else (none, h', filled.1)
        else (none, h, written.1)
      else (none, h, meta.1)

  -- `block_list` and `bmp_revnum_list` for the new version.
  unfoldable pub alloc_blocks : ℕ → F.State → List (ℕ × ℕ) × F.State
  unfolding bmp_revnum_hash
  alloc_blocks zero s = ([], s)
  alloc_blocks (suc n) s =
      let rest = alloc_blocks n (F.alloc s).1 in
      (((F.alloc s).0, bmp_revnum_hash s) ∷ rest.0, rest.1)

  -- The loop over the blocks: `remainsize` bytes from `offset` of the buffer are left. `offset` is a
  -- `uint32_t`, which a document of 2^32 bytes or more wraps.
  unfoldable pub write_blocks :
      List (ℕ × ℕ) → Handle → F.State → List ℕ → ℕ → ℕ → Bool × Handle × F.State
  unfolding write_meta docio_fill_zero
  write_blocks [] h s buf offset remainsize = (true, h, s)
  write_blocks ((bid, hash) ∷ blocks) h s buf offset remainsize =
      let h1 = record h { curblock = bid; cur_bmp_revnum_hash = hash } in
      let meta = write_meta s bid (next_of blocks) hash in
      let whole = F.write_offset meta.1 bid 0 (slice buf offset space) true in
      let h2 = record h1 { curpos = space } in
      let after_whole =
        write_blocks blocks h2 whole.1 buf ((offset + space) % 2 ^ 32) (remainsize - space) in
      let part = F.write_offset meta.1 bid 0 (slice buf offset remainsize) (remainsize == space) in
      let h3 = record h1 { curpos = remainsize } in
      let filled = docio_fill_zero part.1 bid remainsize in
      let after_part =
        write_blocks blocks h3 filled.1 buf ((offset + remainsize) % 2 ^ 32) remainsize in
      if meta.0
      then if leb space remainsize
        then if whole.0 then after_whole else (false, h1, whole.1)
        else if part.0
        then if filled.0 then after_part else (false, h3, filled.1)
        else (false, h1, part.1)
      else (false, h1, meta.1)

  -- The front part of the document goes into the rest of the current block, of which the metadata
  -- names the first new block.
  unfoldable pub write_front : Handle → F.State → ℕ → List ℕ → Bool × F.State
  unfolding write_meta
  write_front h s next_bid buf =
      let offset = sub32 space h.curpos in
      let meta = write_meta s h.curblock next_bid h.cur_bmp_revnum_hash in
      let front = F.write_offset meta.1 h.curblock h.curpos (slice buf 0 offset) true in
      if meta.0 then if offset == 0 then (true, meta.1) else front else (false, meta.1)

  -- The loop over the blocks, and the result.
  unfoldable pub finish :
      List (ℕ × ℕ) → Handle → F.State → List ℕ → ℕ → ℕ → ℕ → Option ℕ × Handle × F.State
  unfolding write_blocks
  finish blocks h s buf offset remainsize startpos =
      let out = write_blocks blocks h s buf offset remainsize in
      (if out.0 then some startpos else none, out.1, out.2)

  abbrev from_current :
      List (ℕ × ℕ) → Handle → F.State → ℕ → List ℕ → ℕ → Option ℕ × Handle × F.State
  from_current blocks h s size buf next_bid =
      let offset = sub32 space h.curpos in
      let front = write_front h s next_bid buf in
      if front.0
      then finish blocks h front.1 buf offset (size - offset)
          (h.curblock * real_blocksize + h.curpos)
      else (none, h, front.1)

  abbrev from_new : List (ℕ × ℕ) → Handle → F.State → ℕ → List ℕ → ℕ → Option ℕ × Handle × F.State
  from_new blocks h s size buf first = finish blocks h s buf 0 size (first * real_blocksize)

  -- New version: blocks are allocated one by one. If the first one lies beyond the block behind the
  -- current one, the current one is left, and the document may need a block more.
  unfoldable pub append_linked : Handle → F.State → ℕ → List ℕ → Option ℕ × Handle × F.State
  unfolding alloc_blocks write_front finish leave_block
  append_linked h s size buf =
      let offset = sub32 space h.curpos in
      let nblock = size / space % 2 ^ 32 in
      let remain = size % space % 2 ^ 32 in
      let one_more = ltb offset remain in
      let first = (F.alloc s).0 in
      let start_from_new_block = not (h.curblock == blk_not_found) && ltb (h.curblock + 1) first in
      let extra = start_from_new_block && (not (remain == 0) && not one_more) in
      let list = alloc_blocks (nblock + (if one_more then 1 else 0) + (if extra then 1 else 0)) s in
      if not (offset == 0) && not start_from_new_block
      then from_current list.0 h list.1 size buf first
      else from_new list.0 h (if h.curblock == blk_not_found then list.1 else leave_block h list.1)
          size buf first

  abbrev block_range : ℕ → ℕ → List (ℕ × ℕ)
  block_range begin zero = []
  block_range begin (suc n) = (begin, 0) ∷ block_range (begin + 1) n

  -- Old version: blocks follow each other. The revision numbers, which are not set there, are not
  -- written either.
  unfoldable pub append_consecutive : Handle → F.State → ℕ → List ℕ → Option ℕ × Handle × F.State
  unfolding write_front finish leave_block
  append_consecutive h s size buf =
      let offset = sub32 space h.curpos in
      let nblock = size / space % 2 ^ 32 in
      let remain = size % space % 2 ^ 32 in
      let cond =
        F.alloc_multiple_cond s (h.curblock + 1) (nblock + (if ltb offset remain then 1 else 0)) in
      let left = if h.curblock == blk_not_found then cond.1 else leave_block h cond.1 in
      let multiple = F.alloc_multiple left (nblock + (if ltb 0 remain then 1 else 0)) in
      if cond.0.0 == h.curblock + 1
      then if cond.0.1 == h.curblock + 1
        then from_current (block_range cond.0.1 (cond.0.2 - cond.0.1 + 1)) h cond.1 size buf 0
        else (none, h, cond.1)
      else from_new (block_range multiple.0.0 (multiple.0.1 - multiple.0.0 + 1)) h multiple.1 size
          buf multiple.0.0

  -- `docio_append_doc_raw`
  unfoldable pub docio_append_doc_raw : Handle → F.State → ℕ → List ℕ → Option ℕ × Handle × F.State
  unfolding ready append_here append_linked append_consecutive
  docio_append_doc_raw h s size buf =
      let (h', s') = ready h s in
      if leb size (sub64 space h'.curpos)
      then append_here h' s' size buf
      else if ver_non_consecutive_doc version
      then append_linked h' s' size buf
      else append_consecutive h' s' size buf
