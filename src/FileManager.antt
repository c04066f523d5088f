-- ===== src/FileManager.antt =====
-- The allocation of blocks in src/filemgr.cc: `filemgr_alloc` and
-- `filemgr_alloc_multiple`. `no_cache` says that `global_config.ncacheblock` is 0, in which case
-- the last byte of what is allocated is written. Logging is left out.
pub mod Alloc
pub mod Stale
pub mod Interface
pub mod Offset
mod Tests
use forestdb.Superblock.State.{Superblock, Filemgr, FileStatus, Call}
use forestdb.Superblock.Alloc.{sb_alloc_block}
use forestdb.Common.{
  ℕ, List, [], Bool, true, false, Option, none, some, if◌then◌else◌, ◌==◌, ◌/◌, ◌-◌, ◌+◌, set,
  add64, sub64, mul64, blk_not_found,
}
use Prim.Native.Nat.{ℕ}

abbrev pub is_normal : FileStatus → Bool
is_normal FileStatus.normal = true
is_normal _ = false

-- `sb_ops.alloc_block(file)`, if the file has a superblock and is not being compacted.
pub reuse_block : Filemgr → Option Superblock → ℕ × Filemgr × List Call
reuse_block file none = (blk_not_found, file, [])
reuse_block file (some sb) =
    let a = sb_alloc_block sb in
    if is_normal file.status
    then (a.ret, record file { sb = some a.sb }, a.calls)
    else (blk_not_found, file, [])

-- `pwrite` of one zero byte at the end of block `bid`.
pub touch : Bool → Filemgr → ℕ → Filemgr
touch no_cache file bid =
    if no_cache
    then record file {
      disk = λ n. if n == bid then set (file.disk n) (file.blocksize - 1) 0 else file.disk n;
    }
    else file

pub filemgr_alloc : Bool → Filemgr → ℕ × Filemgr × List Call
unfolding reuse_block touch
filemgr_alloc no_cache file =
    let r = reuse_block file file.sb in
    let bid = if r.0 == blk_not_found then file.pos / file.blocksize else r.0 in
    let grown =
      if r.0 == blk_not_found then record (r.1) { pos = add64 file.pos file.blocksize } else r.1 in
    (bid, touch no_cache grown bid, r.2)

-- `*begin` and `*end`
pub filemgr_alloc_multiple : Bool → Filemgr → ℕ → (ℕ × ℕ) × Filemgr
unfolding touch
filemgr_alloc_multiple no_cache file nblock =
    let begin = file.pos / file.blocksize in
    let last = sub64 (add64 begin nblock) 1 in
    (
      (begin, last),
      touch no_cache (record file { pos = add64 file.pos (mul64 file.blocksize nblock) }) last,
    )
