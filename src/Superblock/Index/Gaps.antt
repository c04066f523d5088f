-- ===== src/Superblock/Index/Gaps.antt =====
-- `_construct_bmp_idx`: the nodes that it misses.
use forestdb.Common.{
  ℕ, refl, List, ◌<◌, ◌≤◌, blk_not_found, ◌≡◌, ◌/◌, false, ◌%◌, true, ◌+◌, suc, ◌*◌, Bool-cases, [],
  ltb, if◌then◌else◌, arith, ◌==◌, inr, inl, ltb→lt, lt→ltb, zero,
}
use forestdb.Superblock.Bitmap.{is_bmp_set}
use forestdb.Superblock.Index.{search, insert, group_loop, group_nonzero, construct_bmp_idx}
use forestdb.Superblock.Index.Construct.{group_loop_sound, tail_loop_idle, from_bid}

-- The round after a hit: the first group of the next node is not looked at.
skipped_group :
    (fuel : ℕ) (bmp : List ℕ) (groups i : ℕ)
    → i < groups
    → groups ≤ fuel
    → group_nonzero bmp i ≡ true
    → ((g : ℕ) → (i / 4 + 1) * 4 < g → g < (i / 4 + 1) * 4 + 4 → group_nonzero bmp g ≡ false)
    → search (i / 4 + 1) (group_loop fuel bmp groups i []) ≡ false
unfolding group_loop search insert
skipped_group zero bmp groups i h enough hit zeros = absurd (omega arith)
skipped_group (suc fuel) bmp groups i h enough hit zeros =
    elim (Bool-cases (search (i / 4 + 1) (group_loop (suc fuel) bmp groups i []))) [
      | inr missing ↦ missing
      | inl present ↦
          let next = (i / 4 + 1) * 4 + 1 in
          elim (group_loop_sound fuel bmp groups next (insert (i / 4) []) (i / 4 + 1)
            (rw (lt→ltb _ _ h, hit) at present)) [
              | inl old ↦ absurd (ground arith)
              | inr (g, a, b, c, d) ↦ absurd (ground (arith, zeros g))
            ]
    ]

-- A node is missed although its first group may hold reusable blocks: when the scan starts at a
-- nonzero group, and the second to fourth group of the next node are zero, the next node is not
-- in the index, whatever its first group holds.
pub construct_bmp_idx_skips :
    (bmp : List ℕ) (bmp_size start_bid : ℕ)
    → start_bid < bmp_size
    → bmp_size < blk_not_found
    → bmp_size % 64 ≡ 0
    → group_nonzero bmp (start_bid / 64) ≡ true
    → group_nonzero bmp ((start_bid / 256 + 1) * 4 + 1) ≡ false
    → group_nonzero bmp ((start_bid / 256 + 1) * 4 + 2) ≡ false
    → group_nonzero bmp ((start_bid / 256 + 1) * 4 + 3) ≡ false
    → search (start_bid / 256 + 1) (construct_bmp_idx [] bmp bmp_size start_bid) ≡ false
unfolding construct_bmp_idx
construct_bmp_idx_skips bmp bmp_size start_bid in_range small even here one two three =
    let whole : (bmp_size % 64 == 0) ≡ true = ground arith in
    let valid : (start_bid == blk_not_found) ≡ false = ground arith in
    let node : start_bid / 64 / 4 ≡ start_bid / 256 = omega arith in
    let missing =
      skipped_group (bmp_size / 64) bmp (bmp_size / 64) (start_bid / 64) (omega arith) (omega arith)
        here (λ g p q. next_node g (omega arith) (omega arith)) in
    rw (whole, valid, ← node) missing
  where
    next_node :
        (g : ℕ)
        → (start_bid / 256 + 1) * 4 < g
        → g < (start_bid / 256 + 1) * 4 + 4
        → group_nonzero bmp g ≡ false
    next_node g p q = ground arith

group_loop_idle :
    (fuel : ℕ) (bmp : List ℕ) (groups i : ℕ) (idx : List ℕ)
    → ((g : ℕ) → g < groups → group_nonzero bmp g ≡ false)
    → group_loop fuel bmp groups i idx ≡ idx
unfolding group_loop
group_loop_idle zero bmp groups i idx zeros = refl
group_loop_idle (suc fuel) bmp groups i idx zeros = elim (Bool-cases (ltb i groups)) [
  | inr out ↦ rw out
  | inl more ↦
      rw (more, zeros i (ltb→lt _ _ more)) (group_loop_idle fuel bmp groups (i + 1) idx zeros)
]

-- The blocks behind the last full group of a bitmap of more than 2048 blocks are missed: when
-- every group before is zero, and so is each block `b % 2048` for those behind, the index is empty,
-- whatever those blocks are.
pub construct_bmp_idx_wraps :
    (bmp : List ℕ) (bmp_size start_bid : ℕ)
    → ((g : ℕ) → g < bmp_size / 64 → group_nonzero bmp g ≡ false)
    → ((b : ℕ) → bmp_size / 64 * 64 ≤ b → b < bmp_size → is_bmp_set bmp (b % 2048) ≡ false)
    → construct_bmp_idx [] bmp bmp_size start_bid ≡ []
unfolding construct_bmp_idx
construct_bmp_idx_wraps bmp bmp_size start_bid zeros clear =
    let groups =
      group_loop_idle (bmp_size / 64) bmp (bmp_size / 64) (from_bid start_bid / 64) [] zeros in
    let start = bmp_size / 64 * 64 in
    let tail_start = if ltb start (from_bid start_bid) then from_bid start_bid else start in
    let low : start ≤ tail_start = ground arith in
    let behind =
      tail_loop_idle (bmp_size % 64) bmp bmp_size tail_start []
        (λ b p q. clear b (omega arith) q) in
    rw (groups, behind) (ground arith)
