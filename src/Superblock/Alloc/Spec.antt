-- ===== src/Superblock/Alloc/Spec.antt =====
-- What `sb_alloc_block` promises: a list of free blocks, a second list in reserve, and the valid
-- states of a superblock that stand for such a pair.
use forestdb.Superblock.State.{Superblock, RsvBmp, bytes, is_ready}
use forestdb.Superblock.Bitmap.{is_bmp_set}
use forestdb.Superblock.Index.{search}
use forestdb.Superblock.Index.Keys.{Ascending}
use forestdb.Superblock.Alloc.Blocks.{blocks}
use forestdb.Superblock.Alloc.Search.{Covers}
use forestdb.Common.{
  List, Option, some, ℕ, none, [], if◌then◌else◌, ◌≢◌, blk_not_found, ◌==◌, ◌<◌, ◌∷◌, ◌≡◌, true,
  length, ◌/◌, ◌≤◌, ◌+◌, ◌*◌,
}

-- The free blocks in the order of allocation, and those of the reserved bitmap, if it is ready.
pub record Pools : Type 0 where
  pub current : List ℕ
  pub reserve : Option (List ℕ)

abbrev refill : Option (List ℕ) → Pools
refill none = record { current = []; reserve = none }
refill (some r) = record { current = r; reserve = none }

-- Takes the first block; the reserve comes in when the current list is used up.
abbrev pub alloc_from : List ℕ → Option (List ℕ) → ℕ × Pools
alloc_from [] none = (blk_not_found, refill none)
alloc_from [] (some []) = (blk_not_found, refill none)
alloc_from [] (some (x ∷ [])) = (x, refill none)
alloc_from [] (some (x ∷ y ∷ r)) = (x, refill (some (y ∷ r)))
alloc_from (x ∷ []) o = (x, refill o)
alloc_from (x ∷ y ∷ l) o = (x, record { current = y ∷ l; reserve = o })

-- A bitmap with its allocation state is in order: the current block is set, the counter counts
-- the set blocks from there on, and the index is ascending, starts at the current node or behind,
-- and knows the node of every set block behind that node.
pub record IsPool (bmp : List ℕ) (size : ℕ) (idx : List ℕ) (free cur : ℕ) : Type 0 where
  pub exists : size ≢ 0
  pub in_bitmap : free ≢ 0 → cur < size
  pub bit : free ≢ 0 → is_bmp_set bmp cur ≡ true
  pub counted : free ≢ 0 → length (blocks bmp size cur) ≡ free
  pub ascending : free ≢ 0 → Ascending idx
  pub least : free ≢ 0 → (j : ℕ) → search j idx ≡ true → cur / 256 ≤ j
  pub covers : free ≢ 0 → Covers bmp size ((cur / 256 + 1) * 256) idx

abbrev pub pool : List ℕ → ℕ → ℕ → ℕ → List ℕ
pool bmp size free cur = if free == 0 then [] else blocks bmp size cur

abbrev pub rsv_pool : RsvBmp → List ℕ
rsv_pool r = pool (bytes r.bmp) r.bmp_size r.num_free_blocks r.cur_alloc_bid

abbrev pub RsvIsPool : RsvBmp → Type 0
RsvIsPool r = IsPool (bytes r.bmp) r.bmp_size r.bmp_idx r.num_free_blocks r.cur_alloc_bid

abbrev pub reserve_of : Option RsvBmp → Option (List ℕ)
reserve_of none = none
reserve_of (some r) = if is_ready r.status then some (rsv_pool r) else none

abbrev pub ReserveIsPool : Option RsvBmp → Type 0
ReserveIsPool none = Unit
ReserveIsPool (some r) = RsvIsPool r

-- The pair of lists that a superblock stands for.
abbrev pub pools : Superblock → Pools
pools sb = record {
  current = pool (bytes sb.bmp) sb.bmp_size sb.num_free_blocks sb.cur_alloc_bid;
  reserve = reserve_of sb.rsv_bmp;
}

pub record IsValid (sb : Superblock) : Type 0 where
  pub current : IsPool (bytes sb.bmp) sb.bmp_size sb.bmp_idx sb.num_free_blocks sb.cur_alloc_bid
  pub reserve : ReserveIsPool sb.rsv_bmp
