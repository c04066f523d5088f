-- ===== src/Docio/Read.antt =====
-- `_docio_read_through_buffer` and `_docio_read_doc_component` of src/docio.cc. Reading leaves the
-- file as it is, and changes the buffer of the handle.
pub mod Buffer
pub mod Blocks
pub mod Component
use forestdb.Common.Bytes.{slice, from_be}
use forestdb.FileManager.Interface.{FileOps}
use forestdb.Docio.{blocksize, sub32, ℕ}
use forestdb.Version.{ver_non_consecutive_doc}
use forestdb.Common.{
  ℕ, List, Option, Bool, ◌+◌, ◌^◌, not, if◌then◌else◌, ◌*◌, suc, false, ◌==◌, ◌-◌, [],
  blk_not_found, ◌/◌, ◌&&◌, leb, ◌%◌, some, ◌++◌, true, zero, none,
}

-- `struct docio_handle`: what reading uses.
pub record Reader : Type 0 where
  pub lastbid : ℕ
  pub last_bmp_revnum : ℕ
  pub readbuffer : List ℕ

-- `done` with the offset behind what was read; `FDB_RESULT_FILE_CORRUPTION`; or the error of a read.
pub data ReadStatus : Type 0 where
  done : ℕ → ReadStatus
  corrupted : ReadStatus
  read_error : ReadStatus

module _ (F : FileOps) (version real_blocksize : ℕ) where
  -- A block was read into the buffer. It stays there if it cannot be written to any more.
  unfoldable pub loaded : F.State → ℕ → Reader → Option (List ℕ) → Bool × Reader
  loaded s bid r none = (false, record r { lastbid = blk_not_found })
  loaded s bid r (some buf) =
      if F.is_writable s bid
      then (true, record r { lastbid = blk_not_found; readbuffer = buf })
      else (true, record { lastbid = bid; last_bmp_revnum = F.sb_bmp_revnum s; readbuffer = buf })

  -- `_docio_read_through_buffer`
  unfoldable pub docio_read_through_buffer : F.State → ℕ → Reader → Bool × Reader
  unfolding loaded
  docio_read_through_buffer s bid r =
      let stale =
        not (r.lastbid == blk_not_found) && not (F.sb_bmp_revnum s == r.last_bmp_revnum) in
      let r' = if stale then record r { lastbid = blk_not_found } else r in
      if r'.lastbid == bid then (true, r') else loaded s bid r' (F.read s bid)

  -- The block in which the document goes on.
  unfoldable pub next_block : ℕ → List ℕ → ℕ
  next_block bid buf =
      if ver_non_consecutive_doc version
      then from_be 0 (slice buf (blocksize version real_blocksize) 8)
      else bid + 1

  -- The loop of `_docio_read_doc_component`: the bytes from `pos` of block `bid` on.
  unfoldable pub component_loop : ℕ → F.State → ℕ → ℕ → ℕ → Reader → ReadStatus × List ℕ × Reader
  unfolding docio_read_through_buffer next_block
  component_loop zero s bid pos rest_len r = (done (bid * real_blocksize + pos), [], r)
  component_loop (suc fuel) s bid pos rest_len r =
      let out = docio_read_through_buffer s bid r in
      let restsize = sub32 (blocksize version real_blocksize) pos in
      let next = next_block bid out.1.readbuffer in
      let rest = component_loop fuel s next 0 (rest_len - restsize) out.1 in
      if rest_len == 0
      then (done (bid * real_blocksize + pos), [], r)
      else if not out.0
      then (read_error, [], out.1)
      else if leb rest_len restsize
      then (
        done (bid * real_blocksize + (pos + rest_len) % 2 ^ 32),
        slice out.1.readbuffer pos rest_len,
        out.1,
      )
      else if leb (F.pos s / real_blocksize) next
      then (corrupted, slice out.1.readbuffer pos restsize, out.1)
      else (rest.0, slice out.1.readbuffer pos restsize ++ rest.1, rest.2)

  -- `_docio_read_doc_component`, of which `len` is a `uint32_t`, and so are `rest_len` and `pos`. Every
  -- round but the first one reads a byte at least.
  unfoldable pub docio_read_doc_component : F.State → ℕ → ℕ → Reader → ReadStatus × List ℕ × Reader
  unfolding component_loop
  docio_read_doc_component s offset len r =
      component_loop (suc (len % 2 ^ 32)) s (offset / real_blocksize)
        (offset % real_blocksize % 2 ^ 32) (len % 2 ^ 32) r
