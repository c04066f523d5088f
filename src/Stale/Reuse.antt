-- ===== src/Stale/Reuse.antt =====
-- The last loop of `fdb_get_reusable_block` of src/staleblock.cc: whole blocks are cut out of the
-- regions of the merge tree, and what is left of a region stays in the tree.
pub mod Parts
pub mod Bytes
pub mod Loop
pub mod Safety
pub mod Reclaim
use forestdb.Stale.Merge.{StaleData}
use forestdb.Superblock.Reclaim.{Region}
use Prim.Native.String.{[]}
use forestdb.Common.{
  List, ℕ, [], ◌+◌, Option, none, ◌∷◌, if◌then◌else◌, ltb, some, ◌-◌, ◌%◌, ◌==◌, ◌++◌, ◌/◌, ◌*◌,
}
use Prim.Native.Nat.{ℕ}

-- `front_margin`
unfoldable pub front_margin : ℕ → StaleData → ℕ
front_margin blocksize item =
    if item.pos % blocksize == 0 then 0 else blocksize - item.pos % blocksize

-- What becomes of an item: the blocks cut out of it, if any, what stays in its place, and the new
-- item behind the blocks.
pub record Cut : Type 0 where
  pub blocks : List Region
  pub front : List StaleData
  pub new_item : Option StaleData

-- The item from the first boundary of a block on, at `item_pos` and `item_len` long.
unfoldable pub cut_blocks : ℕ → StaleData → ℕ → Cut
cut_blocks blocksize item margin =
    let item_pos = item.pos + margin in
    let item_len = item.len - margin in
    let bid = item_pos / blocksize in
    let count = item_len / blocksize in
    record {
      blocks = record { bid = bid; count = count } ∷ [];
      front = if margin == 0 then [] else record item { len = margin } ∷ [];
      new_item =
          if item_len % blocksize == 0
          then none
          else some (record { pos = (bid + count) * blocksize; len = item_len % blocksize });
    }

unfoldable pub keep : StaleData → Cut
keep item = record { blocks = []; front = item ∷ []; new_item = none }

unfoldable pub cut_item : ℕ → StaleData → Cut
unfolding front_margin cut_blocks keep
cut_item blocksize item =
    let margin = front_margin blocksize item in
    if ltb item.len blocksize
    then keep item
    else if ltb (item.len - margin) blocksize
    then keep item
    else cut_blocks blocksize item margin

-- One item of the loop. The loop goes on behind a new item, so items before its place are kept. Where
-- regions do not overlap, no item stands at that place.
unfoldable pub cut_step : ℕ → Option StaleData → StaleData → Cut
unfolding cut_item
cut_step blocksize none item = cut_item blocksize item
cut_step blocksize (some new_item) item =
    let cut = cut_item blocksize item in
    if ltb item.pos new_item.pos
    then record { blocks = []; front = item ∷ []; new_item = some new_item }
    else record cut { front = new_item ∷ cut.front }

-- The loop over the items in ascending order, with a new item that waits for its place: the blocks,
-- and the tree that is left.
unfoldable pub cut_loop : ℕ → Option StaleData → List StaleData → List Region × List StaleData
unfolding cut_step
cut_loop blocksize none [] = ([], [])
cut_loop blocksize (some new_item) [] = ([], new_item ∷ [])
cut_loop blocksize waiting (item ∷ items) =
    let cut = cut_step blocksize waiting item in
    let rest = cut_loop blocksize cut.new_item items in (cut.blocks ++ rest.0, cut.front ++ rest.1)

-- `ret`, and the merge tree
unfoldable pub reusable_blocks : ℕ → List StaleData → List Region × List StaleData
unfolding cut_loop
reusable_blocks blocksize mergetree = cut_loop blocksize none mergetree
