-- ===== src/FileManager/Stale/Covered.antt =====
-- A document that is marked stale is stale in all its bytes.
use forestdb.Stale.Merge.{StaleData}
use forestdb.Stale.Merge.Tree.{covers}
use forestdb.Superblock.State.{Filemgr}
use forestdb.FileManager.Stale.{docblk_meta_size, filemgr_actual_stale_regions, ℕ}
use forestdb.Common.{
  ℕ, ◌<◌, ◌*◌, ◌+◌, suc, ◌-◌, if◌then◌else◌, ◌≡◌, ltb, true, zero, List, ◌/◌, ◌%◌, ◌||◌,
}

module _ (next_bid : ℕ → ℕ) (real_blocksize : ℕ) where
  -- Where byte `k` of a document that starts at `pos` of block `bid` lies, as a reader goes through
  -- the blocks; `fuel` is more than `k`.
  unfoldable pub byte_from : ℕ → ℕ → ℕ → ℕ → ℕ
  byte_from zero bid pos k = bid * real_blocksize + pos + k
  byte_from (suc fuel) bid pos k =
      let space = real_blocksize - docblk_meta_size - pos in
      if ltb k space
      then bid * real_blocksize + pos + k
      else byte_from fuel (next_bid bid) 0 (k - space)

-- What `filemgr_mark_stale` leaves of the stale list of a document.
pub record IsMarked (next_bid : ℕ → ℕ) (file : Filemgr) (stale_list : List StaleData)
    (offset length : ℕ) (out : List StaleData) : Type 0 where
  pub kept : (x : ℕ) → covers stale_list x ≡ true → covers out x ≡ true
  pub marked :
      (k : ℕ)
      → k < length
      → covers out (
          byte_from next_bid file.blocksize
            (suc k)
            (offset / file.blocksize)
            (offset % file.blocksize)
            k)
        ≡ true
  pub other :
      (x : ℕ)
      → covers out x ≡ true
      → covers stale_list x || covers (filemgr_actual_stale_regions next_bid file offset length) x
        ≡ true
