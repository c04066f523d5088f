-- ===== src/Superblock/Return/Skips.antt =====
-- Blocks that `sb_return_reusable_blocks` does not give back.
use forestdb.Superblock.Return.{
  at_boundary, next_idx, next_cur, Returned, give, return_loop, return_fuel,
}
use forestdb.Superblock.Return.Laws.{IsReturned, return_loop-IsReturned, boundary_above}
use forestdb.Superblock.Index.{search}
use forestdb.Superblock.Bitmap.{is_bmp_set}
use forestdb.Common.{
  ℕ, List, Bool, ◌<◌, Bool-cases, inl, arith, inr, ◌*◌, ◌≡◌, ◌+◌, ◌≤◌, ◌⊎◌, true, some, suc, ◌==◌,
  ltb, false, ◌≢◌, refl, ◌∙◌, subst, sym, zero,
}

search-give :
    (b cur : ℕ) (set : Bool) (r : Returned)
    → b ≢ cur
    → search b (give set cur r).stale ≡ search b r.stale
unfolding search
search-give b cur true r ne = let other : (b == cur) ≡ false = ground arith in rw other
search-give b cur false r ne = refl

between : (cur k : ℕ) → 256 * k < cur + 256 → cur < 256 * k → (at_boundary cur ≡ false)
unfolding at_boundary
between cur k h p = ground arith

inside_node :
    (size cur : ℕ) (idx : List ℕ) → at_boundary cur ≡ false → (next_cur size cur idx ≡ cur + 1)
unfolding next_cur next_idx
inside_node size cur idx e = rw e refl

missed :
    (bmp : List ℕ) (size next k b : ℕ) (r : Returned)
    → IsReturned bmp size next r
    → (256 * k + 256 < next) ⊎ (size < next)
    → b ≤ 256 * k + 256
    → search b r.stale ≡ false
missed bmp size next k b r v far h = elim (Bool-cases (search b r.stale)) [
  | inl e ↦ (let o = v.only b e in absurd (ground (arith, o.0, o.1, far)))
  | inr e ↦ e
]

-- With fuel for each block, and started less than 256 blocks before the first block of a node that
-- is in the bitmap and is not node 0, or on it, the loop ends, and it gives back neither the rest
-- of that node nor the first block of the node behind it, whatever bitmap and index hold.
pub return_loop_skips :
    (fuel : ℕ) (bmp : List ℕ) (size cur : ℕ) (idx : List ℕ) (k : ℕ)
    → return_fuel size cur ≤ fuel
    → 256 * k < size
    → cur ≤ 256 * k
    → 256 * k < cur + 256
    → 0 < k
    → (r : Returned) × (return_loop fuel bmp size cur idx ≡ some r)
      × ((b : ℕ) → 256 * k < b → b ≤ 256 * k + 256 → search b r.stale ≡ false)
unfolding return_loop
return_loop_skips zero bmp size cur idx k h inside below near pos = absurd (omega arith)
return_loop_skips (suc fuel) bmp size cur idx k h inside below near pos =
    let going : ltb cur size ≡ true = ground arith in
    elim (Bool-cases (cur == 256 * k)) [
      | inl e ↦
          let at : cur ≡ 256 * k = ground arith in
          let far = boundary_above size k idx pos inside in
          let far' =
            subst (λ t. (256 * k + 256 < next_cur size t idx) ⊎ (size < next_cur size t idx))
              (sym at) far in
          let (r, found, v) =
            return_loop-IsReturned fuel bmp size (next_cur size cur idx) (next_idx cur idx)
              (ground (arith, far')) in
          (
            give (is_bmp_set bmp cur) cur r,
            rw (going, found),
            λ b p q.
                search-give b cur (is_bmp_set bmp cur) r (λ same. omega arith)
                ∙ missed bmp size _ k b r v far' q,
          )
      | inr e ↦
          let less : cur < 256 * k = ground arith in
          let next = inside_node size cur idx (between cur k near less) in
          let (r, found, rest) =
            return_loop_skips fuel bmp size (next_cur size cur idx) (next_idx cur idx) k
              (omega (arith, next)) inside (omega (arith, next)) (omega (arith, next)) pos in
          (
            give (is_bmp_set bmp cur) cur r,
            rw (going, found),
            λ b p q. search-give b cur (is_bmp_set bmp cur) r (λ same. omega arith) ∙ rest b p q,
          )
    ]
