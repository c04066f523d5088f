-- ===== src/Superblock/Index/Construct.antt =====
-- `_construct_bmp_idx`: which nodes it finds.
use forestdb.Common.{
  ℕ, List, ◌≤◌, ◌≡◌, ◌<◌, true, ◌⊎◌, ◌/◌, inl, suc, Bool-cases, ltb, inr, ◌+◌, arith, ◌%◌, ◌*◌, ◌≢◌,
  ◌==◌, ==_iff, tests, zero, if◌then◌else◌, [], ◌^◌, blk_not_found, false, ◌∙◌, u8, refl, ap,
}
use forestdb.Superblock.Bitmap.Masks.{mod8_lem}
use forestdb.Superblock.Bitmap.{is_bmp_set}
use forestdb.Superblock.Index.{
  search, insert, group_loop, group_nonzero, tail_loop, construct_bmp_idx, tail_bit,
}
use forestdb.Superblock.Index.Keys.{search-insert}
use forestdb.Superblock.Index.Groups.{group_nonzero-is_bmp_set}

-- Group `g` of 64 blocks, from group `i` on, puts node `j` into the index.
abbrev pub Source : List ℕ → ℕ → ℕ → ℕ → Type 0
Source bmp i groups j =
    (g : ℕ) × (i ≤ g) × (g < groups) × (g / 4 ≡ j) × (group_nonzero bmp g ≡ true)

-- A node in the index was there before, or one of its groups from `i` on is not zero.
pub group_loop_sound :
    (fuel : ℕ) (bmp : List ℕ) (groups i : ℕ) (idx : List ℕ) (j : ℕ)
    → search j (group_loop fuel bmp groups i idx) ≡ true
    → (search j idx ≡ true) ⊎ Source bmp i groups j
unfolding group_loop
group_loop_sound zero bmp groups i idx j h = inl h
group_loop_sound (suc fuel) bmp groups i idx j h = elim (Bool-cases (ltb i groups)) [
  | inr out ↦ inl (rw out at h)
  | inl more ↦ elim (Bool-cases (group_nonzero bmp i)) [
    | inr zeros ↦ elim (group_loop_sound fuel bmp groups (i + 1) idx j (rw (more, zeros) at h)) [
      | inl old ↦ inl old
      | inr (g, a, b, c, d) ↦ inr (g, omega arith, b, c, d)
    ]
    | inl hit ↦
        elim (group_loop_sound fuel bmp groups ((i / 4 + 1) * 4 + 1) (insert (i / 4) idx) j
          (rw (more, hit) at h)) [
            | inl old ↦ elim (Bool-cases (j == i / 4)) [
              | inl same ↦ inr (i, omega arith, omega tests, ground arith, hit)
              | inr other ↦ inl (rw (search-insert, other) at old)
            ]
            | inr (g, a, b, c, d) ↦ inr (g, omega arith, b, c, d)
          ]
  ]
]

-- The other way round, a node that was there stays, and a group that is not the first of its node
-- is not missed.
group_loop_complete :
    (fuel : ℕ) (bmp : List ℕ) (groups i : ℕ) (idx : List ℕ) (j : ℕ)
    → groups ≤ i + fuel
    → (search j idx ≡ true)
      ⊎ ((g : ℕ) × (i ≤ g)
          × (g < groups)
          × (g / 4 ≡ j)
          × (group_nonzero bmp g ≡ true)
          × (g % 4 ≢ 0))
    → search j (group_loop fuel bmp groups i idx) ≡ true
unfolding group_loop
group_loop_complete zero bmp groups i idx j enough (inl old) = old
group_loop_complete zero bmp groups i idx j enough (inr (g, a, b, c, d, e)) = absurd (omega arith)
group_loop_complete (suc fuel) bmp groups i idx j enough s = elim (Bool-cases (ltb i groups)) [
  | inr out ↦ rw out (elim s [ inl old ↦ old | inr (g, a, b, c, d, e) ↦ absurd (ground arith) ])
  | inl more ↦ elim (Bool-cases (group_nonzero bmp i)) [
    | inr zeros ↦
        rw (more, zeros)
          (group_loop_complete fuel bmp groups (i + 1) idx j (omega arith) (elim s [
            | inl old ↦ inl old
            | inr (g, a, b, c, d, e) ↦ elim (Bool-cases (g == i)) [
              | inl same ↦ absurd (cc ((==_iff g i).0 same))
              | inr other ↦ inr (g, ground arith, b, c, d, e)
            ]
          ]))
    | inl hit ↦
        rw (more, hit)
          (group_loop_complete fuel bmp groups ((i / 4 + 1) * 4 + 1) (insert (i / 4) idx) j
            (omega arith)
            (elim s [
              | inl old ↦ inl (rw search-insert (ground arith))
              | inr (g, a, b, c, d, e) ↦ elim (Bool-cases (j == i / 4)) [
                | inl same ↦ inl (rw (search-insert, same))
                | inr other ↦ inr (g, ground arith, b, c, d, e)
              ]
            ]))
  ]
]

tail_loop_keeps :
    (fuel : ℕ) (bmp : List ℕ) (bmp_size i : ℕ) (idx : List ℕ) (j : ℕ)
    → search j idx ≡ true
    → search j (tail_loop fuel bmp bmp_size i idx) ≡ true
unfolding tail_loop
tail_loop_keeps zero bmp bmp_size i idx j h = h
tail_loop_keeps (suc fuel) bmp bmp_size i idx j h = ground (
  arith,
  search-insert j (i / 2 ^ 8) idx,
  tail_loop_keeps fuel bmp bmp_size (i + 1) idx j,
  tail_loop_keeps fuel bmp bmp_size ((i / 2 ^ 8 + 1) * 256 + 1) (insert (i / 2 ^ 8) idx) j,
)

-- The byte number is cut to eight bits, so the loop tests block `i % 2048` for block `i`.
tail_bit_lem : (bmp : List ℕ) (i : ℕ) → tail_bit bmp i ≡ is_bmp_set bmp (i % 2048)
unfolding tail_bit is_bmp_set
tail_bit_lem bmp i =
    let byte : u8 (i / 2 ^ 3) ≡ i % 2048 / 2 ^ 3 = omega arith in
    rw (mod8_lem i, mod8_lem (i % 2048), byte) (ground arith)

-- The bits after the last full group lie in one node, which the test puts in.
tail_loop_complete :
    (fuel : ℕ) (bmp : List ℕ) (bmp_size i : ℕ) (idx : List ℕ) (b : ℕ)
    → bmp_size ≤ i + fuel
    → i ≤ b
    → b < bmp_size
    → i / 256 ≡ b / 256
    → is_bmp_set bmp (b % 2048) ≡ true
    → search (b / 256) (tail_loop fuel bmp bmp_size i idx) ≡ true
unfolding tail_loop
tail_loop_complete zero bmp bmp_size i idx b enough p q same h = absurd (omega arith)
tail_loop_complete (suc fuel) bmp bmp_size i idx b enough p q same h = ground (
  arith,
  search-insert (b / 256) (i / 2 ^ 8) idx,
  tail_bit_lem bmp b,
  tail_loop_keeps fuel bmp bmp_size ((i / 2 ^ 8 + 1) * 256 + 1) (insert (i / 2 ^ 8) idx) (b / 256),
  tail_loop_complete fuel bmp bmp_size (i + 1) idx b,
)

-- If the test fails on every bit behind the last full group, the loop adds no node.
pub tail_loop_idle :
    (fuel : ℕ) (bmp : List ℕ) (bmp_size i : ℕ) (idx : List ℕ)
    → ((b : ℕ) → i ≤ b → b < bmp_size → is_bmp_set bmp (b % 2048) ≡ false)
    → tail_loop fuel bmp bmp_size i idx ≡ idx
unfolding tail_loop
tail_loop_idle zero bmp bmp_size i idx clear = refl
tail_loop_idle (suc fuel) bmp bmp_size i idx clear = elim (Bool-cases (ltb i bmp_size)) [
  | inr out ↦ rw out
  | inl more ↦
      let miss : tail_bit bmp i ≡ false =
        tail_bit_lem bmp i ∙ clear i (omega arith) (omega tests) in
      rw (more, miss)
        (tail_loop_idle fuel bmp bmp_size (i + 1) idx (λ b p q. clear b (omega arith) q))
]

abbrev pub from_bid : ℕ → ℕ
from_bid start_bid = if start_bid == blk_not_found then 0 else start_bid

-- What `_construct_bmp_idx` finds: a node of a nonzero full group that is not the first group of
-- its node; and the node of a block behind the last full group, if block `b % 2048` is set, which
-- is the block itself in a bitmap of at most 2048 blocks.
data Indexed (bmp : List ℕ) (bmp_size start_bid j : ℕ) : Type 0 where
  in_group :
      (g : ℕ)
      → from_bid start_bid / 64 ≤ g
      → g < bmp_size / 64
      → g / 4 ≡ j
      → g % 4 ≢ 0
      → group_nonzero bmp g ≡ true
      → Indexed bmp bmp_size start_bid j
  in_tail :
      (b : ℕ)
      → from_bid start_bid ≤ b
      → bmp_size / 64 * 64 ≤ b
      → b < bmp_size
      → b / 256 ≡ j
      → is_bmp_set bmp (b % 2048) ≡ true
      → Indexed bmp bmp_size start_bid j

construct_bmp_idx-Indexed :
    (bmp : List ℕ) (bmp_size start_bid j : ℕ)
    → Indexed bmp bmp_size start_bid j
    → search j (construct_bmp_idx [] bmp bmp_size start_bid) ≡ true
unfolding construct_bmp_idx
construct_bmp_idx-Indexed bmp bmp_size start_bid j (in_group g a b c d e) =
    let groups = bmp_size / 64 in
    let full = group_loop groups bmp groups (from_bid start_bid / 64) [] in
    let found : search j full ≡ true =
      group_loop_complete groups bmp groups (from_bid start_bid / 64) [] j (omega arith)
        (inr (g, a, b, c, e, d)) in
    let start = groups * 64 in
    let tail_start = if ltb start (from_bid start_bid) then from_bid start_bid else start in
    let kept = tail_loop_keeps (bmp_size % 64) bmp bmp_size tail_start full j found in
    elim (Bool-cases (bmp_size % 64 == 0)) [ inl even ↦ rw even found | inr odd ↦ rw odd kept ]
construct_bmp_idx-Indexed bmp bmp_size start_bid j (in_tail b a c d e h) =
    let groups = bmp_size / 64 in
    let full = group_loop groups bmp groups (from_bid start_bid / 64) [] in
    let start = groups * 64 in
    let tail_start = if ltb start (from_bid start_bid) then from_bid start_bid else start in
    let low : groups * 64 ≤ tail_start = ground arith in
    let high : tail_start ≤ b = ground arith in
    let odd : (bmp_size % 64 == 0) ≡ false = ground arith in
    let found =
      tail_loop_complete (bmp_size % 64) bmp bmp_size tail_start full b (omega arith) high d
        (omega arith) h in
    rw (odd, ← e) found

-- `_construct_bmp_idx` puts the node of a set block into the index, if the block is not before
-- `start_bid` and lies either in a full group of 64 blocks that is not the first of the four groups of
-- its node, or behind the last full group in a bitmap of at most 2048 blocks.
pub construct_bmp_idx-is_bmp_set :
    (bmp : List ℕ) (bmp_size start_bid b : ℕ)
    → from_bid start_bid ≤ b
    → b < bmp_size
    → is_bmp_set bmp b ≡ true
    → (b < bmp_size / 64 * 64) × (64 ≤ b % 256) ⊎ (bmp_size / 64 * 64 ≤ b) × (bmp_size ≤ 2048)
    → search (b / 256) (construct_bmp_idx [] bmp bmp_size start_bid) ≡ true
construct_bmp_idx-is_bmp_set bmp bmp_size start_bid b h k set (inl (full, later)) =
    construct_bmp_idx-Indexed bmp bmp_size start_bid (b / 256) (
      Indexed.in_group (b / 64) (omega (arith, h)) (omega arith) (omega arith)
        (λ e. omega (arith, e, later)) (group_nonzero-is_bmp_set bmp b set))
construct_bmp_idx-is_bmp_set bmp bmp_size start_bid b h k set (inr (behind, small)) =
    let same : b % 2048 ≡ b = omega arith in
    construct_bmp_idx-Indexed bmp bmp_size start_bid (b / 256)
      (Indexed.in_tail b h behind k refl (ap (is_bmp_set bmp) same ∙ set))
