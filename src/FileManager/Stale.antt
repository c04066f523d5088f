-- ===== src/FileManager/Stale.antt =====
-- The stale list of src/filemgr.cc: `filemgr_add_stale_block`, `filemgr_actual_stale_length`,
-- `filemgr_actual_stale_regions` and `filemgr_mark_stale`. The stale list is an argument, none if
-- it is NULL; `next_bid` is the block number that the metadata at the end of a block holds, decoded.
pub mod Covered
pub mod Count
use forestdb.Stale.Merge.{StaleData}
use forestdb.Superblock.State.{Filemgr}
use forestdb.Version.{ver_non_consecutive_doc}
use forestdb.Common.{
  ℕ, Option, List, if◌then◌else◌, [], ◌∷◌, ◌/◌, some, ◌==◌, none, suc, ◌+◌, sub64, ◌-◌, ◌%◌, ◌*◌,
  leb, zero, ◌^◌,
}
use Prim.Native.Nat.{ℕ, suc}

abbrev pub docblk_meta_size : ℕ
docblk_meta_size = 16

-- The last item takes up a region that follows it. The length of an item is a `uint32_t`.
unfoldable pub push_stale : List StaleData → ℕ → ℕ → List StaleData
push_stale [] pos len = record { pos = pos; len = len % 2 ^ 32 } ∷ []
push_stale (item ∷ []) pos len =
    if item.pos + item.len == pos
    then record item { len = (item.len + len) % 2 ^ 32 } ∷ []
    else item ∷ record { pos = pos; len = len % 2 ^ 32 } ∷ []
push_stale (item ∷ e ∷ es) pos len = item ∷ push_stale (e ∷ es) pos len

-- `filemgr_add_stale_block`
unfoldable pub filemgr_add_stale_block : Option (List StaleData) → ℕ → ℕ → Option (List StaleData)
unfolding push_stale
filemgr_add_stale_block none pos len = none
filemgr_add_stale_block (some stale_list) pos len = some (push_stale stale_list pos len)

-- `filemgr_actual_stale_length`
unfoldable pub filemgr_actual_stale_length : Filemgr → ℕ → ℕ → ℕ
filemgr_actual_stale_length file offset length =
    let start_bid = offset / file.blocksize in
    let end_bid = (offset + length) / file.blocksize in
    let actual_len = length + (end_bid - start_bid) in
    if (offset + actual_len) % file.blocksize == file.blocksize - 1
    then actual_len + 1
    else actual_len

module _ (next_bid : ℕ → ℕ) (real_blocksize : ℕ) where
  -- The loop over the blocks of a document: `remaining` bytes of it from `cur_pos` in `cur_bid` on.
  unfoldable pub region_loop : ℕ → ℕ → ℕ → ℕ → List StaleData
  region_loop zero cur_bid cur_pos remaining = []
  region_loop (suc fuel) cur_bid cur_pos remaining =
      let space_in_block = sub64 (real_blocksize - docblk_meta_size) cur_pos in
      let pos = cur_bid * real_blocksize + cur_pos in
      let rest = region_loop fuel (next_bid cur_bid) 0 (remaining - space_in_block) in
      if remaining == 0
      then []
      else if leb space_in_block remaining
      then record { pos = pos; len = real_blocksize - cur_pos } ∷ rest
      else record { pos = pos; len = remaining } ∷ []

-- `filemgr_actual_stale_regions`: every round but the first one takes a byte at least.
unfoldable pub filemgr_actual_stale_regions : (ℕ → ℕ) → Filemgr → ℕ → ℕ → List StaleData
unfolding region_loop filemgr_actual_stale_length
filemgr_actual_stale_regions next_bid file offset length =
    if ver_non_consecutive_doc file.version
    then region_loop next_bid file.blocksize (suc length) (offset / file.blocksize)
        (offset % file.blocksize) length
    else record { pos = offset; len = filemgr_actual_stale_length file offset length } ∷ []

unfoldable pub add_regions : Option (List StaleData) → List StaleData → Option (List StaleData)
unfolding filemgr_add_stale_block
add_regions stale_list [] = stale_list
add_regions stale_list (r ∷ rs) = add_regions (filemgr_add_stale_block stale_list r.pos r.len) rs

-- `filemgr_mark_stale`
unfoldable pub filemgr_mark_stale :
    (ℕ → ℕ) → Filemgr → Option (List StaleData) → ℕ → ℕ → Option (List StaleData)
unfolding filemgr_actual_stale_regions add_regions
filemgr_mark_stale next_bid file stale_list offset length =
    if length == 0
    then stale_list
    else add_regions stale_list (filemgr_actual_stale_regions next_bid file offset length)
