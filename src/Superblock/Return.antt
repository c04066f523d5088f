-- ===== src/Superblock/Return.antt =====
-- `sb_return_reusable_blocks` of src/superblock.cc: the blocks that are left are given back to the
-- stale list. Both of its loops are the same code on the two bitmaps. The last call, of
-- `fdb_gather_stale_blocks` (src/staleblock.cc), is left to the caller.
pub mod Laws
pub mod Skips
pub mod Empty
mod Tests
use forestdb.Superblock.State.{
  Superblock, RsvBmp, RsvStatus, Call, add_stale_block, bytes, is_ready,
}
use forestdb.Superblock.Bitmap.{is_bmp_set}
use forestdb.Superblock.Index.{search, remove}
use forestdb.Common.{
  ℕ, List, [], ◌∷◌, ◌++◌, Option, none, some, Bool, if◌then◌else◌, not, ltb, leb, ◌==◌, ◌&&◌, ◌+◌,
  ◌*◌, ◌/◌, ◌%◌, ◌-◌, blk_not_found, zero,
}
use Prim.Native.Nat.{ℕ, suc}

-- The do-while loop: nodes up to `node_id` are removed.
pub drop_upto : ℕ → List ℕ → List ℕ
drop_upto node_id [] = []
drop_upto node_id (id ∷ idx) =
    let rest = drop_upto node_id idx in if leb id node_id then rest else id ∷ idx

-- The first block of the first node that is left, or the end of the bitmap.
pub jump : ℕ → List ℕ → ℕ
jump bmp_size [] = bmp_size
jump bmp_size (id ∷ idx) = id * 256

-- Whether the node changes at a block.
pub at_boundary : ℕ → Bool
at_boundary cur = cur % 256 == 0 && ltb 0 cur

-- What one round makes of the index.
pub next_idx : ℕ → List ℕ → List ℕ
unfolding at_boundary
next_idx cur idx =
    if at_boundary cur
    then drop_upto (cur / 256)
        (if search (cur / 256 - 1) idx then remove (cur / 256 - 1) idx else idx)
    else idx

-- What one round and the `++cur` of the loop make of the block.
pub next_cur : ℕ → ℕ → List ℕ → ℕ
unfolding at_boundary next_idx
next_cur bmp_size cur idx = (if at_boundary cur then jump bmp_size (next_idx cur idx) else cur) + 1

-- The blocks given back and the index that is left.
pub record Returned : Type 0 where
  pub stale : List ℕ
  pub idx : List ℕ

abbrev pub give : Bool → ℕ → Returned → Returned
give set cur r = if set then record r { stale = cur ∷ r.stale } else r

-- The loop over the blocks, or none if `fuel` is too small.
pub return_loop : ℕ → List ℕ → ℕ → ℕ → List ℕ → Option Returned
unfolding next_cur next_idx
return_loop zero bmp bmp_size cur idx = none
return_loop (suc fuel) bmp bmp_size cur idx =
    let rest = return_loop fuel bmp bmp_size (next_cur bmp_size cur idx) (next_idx cur idx) in
    if not (ltb cur bmp_size)
    then some (record { stale = []; idx = idx })
    else elim rest [ none ↦ none | some r ↦ some (give (is_bmp_set bmp cur) cur r) ]

-- The block number grows in each round.
abbrev pub return_fuel : ℕ → ℕ → ℕ
return_fuel bmp_size cur = bmp_size - cur + 1

abbrev pub stale_calls : List ℕ → List Call
stale_calls [] = []
stale_calls (b ∷ bs) = add_stale_block b 1 ∷ stale_calls bs

-- The second half, for a reserve.
pub return_rsv : Superblock → Option RsvBmp → Option (Superblock × List Call)
return_rsv sb none = some (sb, [])
return_rsv sb (some rsv) =
    if is_ready rsv.status
    then elim (return_loop (return_fuel rsv.bmp_size rsv.cur_alloc_bid) (bytes rsv.bmp) rsv.bmp_size
        rsv.cur_alloc_bid rsv.bmp_idx) [
          | none ↦ none
          | some r ↦ some (record sb { rsv_bmp = none }, stale_calls r.stale)
        ]
    else some (sb, [])

pub sb_return_reusable_blocks : Superblock → Option (Superblock × List Call)
unfolding return_rsv
sb_return_reusable_blocks sb =
    elim (return_loop (return_fuel sb.bmp_size sb.cur_alloc_bid) (bytes sb.bmp) sb.bmp_size
      sb.cur_alloc_bid sb.bmp_idx) [
        | none ↦ none
        | some r ↦
            let sb' = record sb {
              bmp_idx = r.idx;
              num_free_blocks = 0;
              cur_alloc_bid = blk_not_found;
            } in
            elim (return_rsv sb' sb.rsv_bmp) [
              | none ↦ none
              | some (after, calls) ↦ some (after, stale_calls r.stale ++ calls)
            ]
      ]
