-- ===== src/Stale/Merge.antt =====
-- `_insert_n_merge` of src/staleblock.cc. The AVL tree of regions is the ascending list of its
-- items, by their positions. A length has 32 bits.
pub mod Tree
pub mod Covers
-- `struct stale_data`
use forestdb.Common.{
  List, Option, if◌then◌else◌, ℕ, none, some, ◌∷◌, leb, ◌++◌, ltb, ◌==◌, ◌+◌, [], ◌-◌, ◌%◌, ◌^◌,
}
use Prim.Native.Nat.{ℕ}

pub record StaleData : Type 0 where
  pub pos : ℕ
  pub len : ℕ

-- What `avl_search` finds, and the items on both sides of it.
unfoldable pub avl_search : List StaleData → ℕ → Option StaleData
avl_search [] pos = none
avl_search (r ∷ rs) pos = if r.pos == pos then some r else avl_search rs pos

unfoldable pub below : List StaleData → ℕ → List StaleData
below [] pos = []
below (r ∷ rs) pos = if ltb r.pos pos then r ∷ below rs pos else []

unfoldable pub above : List StaleData → ℕ → List StaleData
above [] pos = []
above (r ∷ rs) pos = if ltb pos r.pos then r ∷ rs else above rs pos

-- The longer one of a region that is there and a new one at its position.
unfoldable pub choose : Option StaleData → ℕ → ℕ → StaleData
choose none item_pos item_len = record { pos = item_pos; len = item_len }
choose (some item) item_pos item_len =
    if ltb item.len item_len then record item { len = item_len } else item

-- The second region is joined to the first one, which reaches it: `a.len += b.len + (b.pos - a.pos -
-- a.len)`, where `a.len` is a `uint32_t`. The overlap wraps around in 64 bits, and back in the sum.
unfoldable pub join : StaleData → StaleData → StaleData
join a b =
    if leb (b.pos + b.len) (a.pos + a.len)
    then a
    else record a { len = (a.len + (b.len + (b.pos - a.pos)) - a.len) % 2 ^ 32 }

-- The items before the new one, the last of which may take it up; and the item that is left.
unfoldable pub merge_prev : List StaleData → StaleData → List StaleData × StaleData
unfolding join
merge_prev [] item = ([], item)
merge_prev (p ∷ []) item =
    if leb item.pos (p.pos + p.len) then ([], join p item) else (p ∷ [], item)
merge_prev (p ∷ q ∷ ps) item = (p ∷ (merge_prev (q ∷ ps) item).0, (merge_prev (q ∷ ps) item).1)

-- The item and what follows, after the first of those was looked at.
unfoldable pub merge_next : StaleData → List StaleData → List StaleData
unfolding join
merge_next item [] = item ∷ []
merge_next item (n ∷ ns) =
    if leb n.pos (item.pos + item.len) then join item n ∷ ns else item ∷ n ∷ ns

-- `_insert_n_merge`
unfoldable pub insert_n_merge : List StaleData → ℕ → ℕ → List StaleData
unfolding avl_search below above choose merge_prev merge_next
insert_n_merge tree item_pos item_len =
    let item = choose (avl_search tree item_pos) item_pos item_len in
    let merged = merge_prev (below tree item_pos) item in
    merged.0 ++ merge_next merged.1 (above tree item_pos)

-- The loop of `fdb_get_reusable_block` that moves the stale list into the tree.
unfoldable pub merge_stale_list : List StaleData → List StaleData → List StaleData
unfolding insert_n_merge
merge_stale_list tree [] = tree
merge_stale_list tree (item ∷ items) =
    merge_stale_list (insert_n_merge tree item.pos item.len) items
