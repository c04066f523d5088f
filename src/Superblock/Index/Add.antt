-- ===== src/Superblock/Index/Add.antt =====
-- `_add_bmp_idx`: which nodes it adds.
use forestdb.Common.{
  ℕ, List, ◌≡◌, leb, ◌&&◌, ltb, ◌+◌, ◌||◌, arith, suc, zero, ◌<◌, if◌then◌else◌, Bool-cases, ◌^◌,
  inl, ◌/◌, ◌-◌, inr, sub64, add64,
}
use forestdb.Superblock.Index.{search, insert, add_loop, add_bmp_idx}
use forestdb.Superblock.Index.Keys.{search-insert, Ascending, Ascending-insert}

search-add_loop :
    (left cur j : ℕ) (idx : List ℕ)
    → search j (add_loop left cur idx) ≡ (leb cur j && ltb j (cur + left) || search j idx)
unfolding add_loop
search-add_loop zero cur j idx = ground arith
search-add_loop (suc left) cur j idx = ground (
  arith,
  search-add_loop left (cur + 1) j idx,
  search-add_loop left (cur + 1) j (insert cur idx),
  search-insert j cur idx,
)

Ascending-add_loop :
    (left cur : ℕ) (idx : List ℕ) → Ascending idx → Ascending (add_loop left cur idx)
unfolding add_loop
Ascending-add_loop zero cur idx a = a
Ascending-add_loop (suc left) cur idx a =
    Ascending-add_loop left (cur + 1) (if search cur idx then idx else insert cur idx)
      (elim (Bool-cases (search cur idx)) [
        | inl old ↦ rw old a
        | inr new ↦ rw new (Ascending-insert cur idx a)
      ])

-- After `_add_bmp_idx` the index has the nodes that it had and exactly those that hold one of the
-- `count` blocks from `bid` on, in ascending order. There is at least one block, and the last
-- block number does not wrap.
pub search-add_bmp_idx :
    (idx : List ℕ) (bid count j : ℕ)
    → 0 < count
    → bid + count < 2 ^ 64
    → Ascending idx
    → (search j (add_bmp_idx idx bid count)
        ≡ (leb (bid / 256) j && leb j ((bid + count - 1) / 256) || search j idx))
      × Ascending (add_bmp_idx idx bid count)
unfolding add_bmp_idx
search-add_bmp_idx idx bid count j pos small a =
    let start_id = bid / 256 in
    let stop_id = (bid + count - 1) / 256 in
    let stop : sub64 (add64 bid count) 1 / 2 ^ 8 ≡ stop_id = omega arith in
    rw stop (
      ground (arith, search-add_loop (stop_id + 1 - start_id) start_id j idx),
      Ascending-add_loop (stop_id + 1 - start_id) start_id idx a,
    )
