-- ===== src/Superblock/Index.antt =====
-- The supplementary index of the bitmap in src/superblock.cc: the numbers of the nodes, of 256
-- blocks each, that may hold a reusable block. The AVL tree that keeps them is read through its
-- operations as the ascending list of its keys.
pub mod Keys
pub mod Add
pub mod Construct
pub mod Gaps
pub mod Groups
use forestdb.Common.{
  ◌+◌, List, ℕ, Bool, Option, ◌/◌, if◌then◌else◌, ◌∷◌, suc, false, none, ◌^◌, ◌*◌, ◌==◌, zero, ltb,
  true, some, sub64, blk_not_found, not, add64, bit_and, get_or, ◌%◌, ◌-◌, ◌||◌, [], u8,
}
use forestdb.Superblock.Bitmap.{mod8, div8, basic_mask}

-- `avl_search` by `_bmp_idx_cmp`
unfoldable pub search : ℕ → List ℕ → Bool
search id [] = false
search id (k ∷ ks) = if id == k then true else search id ks

-- `avl_insert`, which keeps the node that is there already
pub insert : ℕ → List ℕ → List ℕ
insert id [] = id ∷ []
insert id (k ∷ ks) = if ltb id k then id ∷ k ∷ ks else if id == k then k ∷ ks else k ∷ insert id ks

-- `avl_remove` of the node found by `avl_search`
unfoldable pub remove : ℕ → List ℕ → List ℕ
remove id [] = []
remove id (k ∷ ks) = if id == k then ks else k ∷ remove id ks

-- `avl_first`
pub first : List ℕ → Option ℕ
first [] = none
first (k ∷ ks) = some k

-- The loop `cur = start_id; cur <= stop_id`, with `left` rounds to go.
pub add_loop : ℕ → ℕ → List ℕ → List ℕ
add_loop zero cur idx = idx
add_loop (suc left) cur idx =
    add_loop left (cur + 1) (if search cur idx then idx else insert cur idx)

-- Block numbers are far below 2^64, so `bid + count - 1` wraps only for `bid` and `count` both 0.
pub add_bmp_idx : List ℕ → ℕ → ℕ → List ℕ
add_bmp_idx idx bid count =
    let start_id = bid / 2 ^ 8 in
    let stop_id = sub64 (add64 bid count) 1 / 2 ^ 8 in
    add_loop (stop_id + 1 - start_id) start_id idx

-- `_free_bmp_idx` walks the tree and removes each node on the way.
unfoldable pub free_loop : List ℕ → List ℕ → List ℕ
free_loop [] idx = idx
free_loop (k ∷ ks) idx = free_loop ks (remove k idx)

unfoldable pub free_bmp_idx : List ℕ → List ℕ
free_bmp_idx idx = free_loop idx idx

-- `bmp64[i] != 0`: one of the eight bytes of group `i` is not zero.
unfoldable pub byte_nonzero : List ℕ → ℕ → ℕ → Bool
byte_nonzero bmp at zero = false
byte_nonzero bmp at (suc left) = not (get_or bmp at 0 == 0) || byte_nonzero bmp (at + 1) left

unfoldable pub group_nonzero : List ℕ → ℕ → Bool
group_nonzero bmp i = byte_nonzero bmp (i * 8) 8

-- The loop over bitmap groups, with at most `fuel` rounds. A hit jumps to `(node_idx + 1) * 4`,
-- and the loop's own `++i` comes on top.
pub group_loop : ℕ → List ℕ → ℕ → ℕ → List ℕ → List ℕ
group_loop zero bmp groups i idx = idx
group_loop (suc fuel) bmp groups i idx =
    let hit = group_loop fuel bmp groups ((i / 4 + 1) * 4 + 1) (insert (i / 4) idx) in
    let miss = group_loop fuel bmp groups (i + 1) idx in
    if ltb i groups then if group_nonzero bmp i then hit else miss else idx

-- `bmp[idx] & bmp_basic_mask[off]`, where `idx` is a `uint8_t`.
pub tail_bit : List ℕ → ℕ → Bool
tail_bit bmp i = not (bit_and (get_or bmp (u8 (div8 i)) 0) (basic_mask (mod8 i)) == 0)

-- The loop over the bits that remain after the last full group.
pub tail_loop : ℕ → List ℕ → ℕ → ℕ → List ℕ → List ℕ
tail_loop zero bmp bmp_size i idx = idx
tail_loop (suc fuel) bmp bmp_size i idx =
    let hit = tail_loop fuel bmp bmp_size ((i / 2 ^ 8 + 1) * 256 + 1) (insert (i / 2 ^ 8) idx) in
    let miss = tail_loop fuel bmp bmp_size (i + 1) idx in
    if ltb i bmp_size then if tail_bit bmp i then hit else miss else idx

-- `_construct_bmp_idx`. Every round of a loop raises its variable, so the fuel is enough.
pub construct_bmp_idx : List ℕ → List ℕ → ℕ → ℕ → List ℕ
construct_bmp_idx idx bmp bmp_size start_bid =
    let from = if start_bid == blk_not_found then 0 else start_bid in
    let groups = group_loop (bmp_size / 64) bmp (bmp_size / 64) (from / 64) idx in
    let start = bmp_size / 64 * 64 in
    let tail_start = if ltb start from then from else start in
    if bmp_size % 64 == 0 then groups else tail_loop (bmp_size % 64) bmp bmp_size tail_start groups
