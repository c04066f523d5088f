-- ===== src/Superblock/Alloc.antt =====
-- `sb_alloc_block` of src/superblock.cc.
pub mod Blocks
pub mod Search
pub mod Spec
pub mod Refine
pub mod Take
pub mod Frame
use forestdb.Common.{
  ℕ, [], if◌then◌else◌, List, ◌-◌, add64, suc, Option, length, blk_not_found, none, ◌+◌, ◌++◌, some,
  ◌/◌, not, ◌*◌, zero, ◌==◌, leb, ◌^◌, ◌%◌, bit_and, get_or,
}
use forestdb.Superblock.State.{Superblock, Call, bytes, sb_bmp_exists}
use forestdb.Superblock.Switch.{sb_switch_reserved_blocks}
use forestdb.Superblock.Bitmap.{div8, mod8, basic_mask}
use forestdb.Superblock.Index.{search, remove, first}

-- The block returned, the superblock and the calls to the file manager.
pub record Allocated : Type 0 where
  pub ret : ℕ
  pub sb : Superblock
  pub calls : List Call

-- The loop `i = node_off; i < 256` with `left` rounds to go: the first set bit of the node.
pub scan_node : ℕ → List ℕ → ℕ → ℕ → ℕ → Option ℕ
scan_node zero bmp bmp_size node_idx i = none
scan_node (suc left) bmp bmp_size node_idx i =
    let bmp_idx = div8 i + node_idx * 32 in
    let bmp_off = mod8 i in
    let rest = scan_node left bmp bmp_size node_idx (i + 1) in
    if leb bmp_size (bmp_idx * 8 + bmp_off)
    then none
    else if not (bit_and (get_or bmp bmp_idx 0) (basic_mask bmp_off) == 0)
    then some (bmp_idx * 8 + bmp_off)
    else rest

-- The outcome of the do-while loop: the next block, or no node left; with the index.
pub data Found : Type 0 where
  next_block : ℕ → List ℕ → Found
  no_block : List ℕ → Found
  out_of_fuel : Found

-- Each round but the first removes the node that it has looked at.
pub search_nodes : ℕ → List ℕ → ℕ → List ℕ → ℕ → ℕ → Found
search_nodes zero bmp bmp_size idx node_idx node_off = out_of_fuel
search_nodes (suc fuel) bmp bmp_size idx node_idx node_off =
    let idx' = if search node_idx idx then remove node_idx idx else idx in
    elim (scan_node (256 - node_off) bmp bmp_size node_idx node_off) [
      | some bid ↦ next_block bid idx
      | none ↦ elim (first idx') [
        | none ↦ no_block idx'
        | some id ↦ search_nodes fuel bmp bmp_size idx' id 0
      ]
    ]

-- No free block is left in the bitmap: take the reserved one, or give up.
pub switch_or_stop : Superblock → ℕ → Allocated
switch_or_stop sb ret =
    let s = sb_switch_reserved_blocks sb in
    if s.done
    then record { ret = ret; sb = s.sb; calls = s.calls }
    else record { ret = ret; sb = record sb { cur_alloc_bid = blk_not_found }; calls = s.calls }

pub after_search : Superblock → ℕ → Found → Allocated
unfolding switch_or_stop
after_search sb ret (next_block bid idx) = record {
  ret = ret;
  sb = record sb { cur_alloc_bid = bid; bmp_idx = idx };
  calls = [];
}
after_search sb ret (no_block idx) =
    switch_or_stop (record sb { bmp_idx = idx; num_free_blocks = 0 }) ret
after_search sb ret out_of_fuel = record { ret = ret; sb = sb; calls = [] }

-- The current block is handed out, and the next one is looked for.
pub take_current : Superblock → Allocated
unfolding after_search switch_or_stop
take_current sb =
    let ret = sb.cur_alloc_bid in
    let sb' = record sb { num_free_blocks = sb.num_free_blocks - 1 } in
    let found =
      search_nodes (length sb.bmp_idx + 2) (bytes sb.bmp) sb.bmp_size sb.bmp_idx (ret / 2 ^ 8)
        (ret % 2 ^ 8 + 1) in
    if sb'.num_free_blocks == 0 then switch_or_stop sb' ret else after_search sb' ret found

-- From the label `sb_alloc_start_over` on, with `fuel` jumps back at most.
unfoldable pub start_over : ℕ → Superblock → List Call → Allocated
start_over zero sb calls = record { ret = blk_not_found; sb = sb; calls = calls }
start_over (suc fuel) sb calls =
    let s = sb_switch_reserved_blocks sb in
    let again = start_over fuel s.sb (calls ++ s.calls) in
    let stop = record sb { cur_alloc_bid = blk_not_found } in
    let taken = take_current sb in
    if not (sb_bmp_exists sb)
    then record { ret = blk_not_found; sb = sb; calls = calls }
    else if sb.num_free_blocks == 0
    then if s.done
      then again
      else record { ret = blk_not_found; sb = stop; calls = calls ++ s.calls }
    else record { ret = taken.ret; sb = taken.sb; calls = calls ++ taken.calls }

-- A switch leaves no reserved bitmap, so one jump back is all there can be.
unfoldable pub sb_alloc_block : Superblock → Allocated
unfolding start_over take_current
sb_alloc_block sb = start_over 2 (record sb { num_alloc = add64 sb.num_alloc 1 }) []
