-- ===== src/FileManager/Stale/Count.antt =====
-- The array of regions in `filemgr_actual_stale_regions` is large enough.
use forestdb.Superblock.State.{Filemgr}
use forestdb.Version.{ver_non_consecutive_doc}
use native.Mathlib.Nat.{div-add-mod', mod-lt, mul-le-mul_right}
use forestdb.FileManager.Stale.{docblk_meta_size, region_loop, filemgr_actual_stale_regions, ℕ}
use forestdb.Common.{
  ℕ, ◌<◌, ◌^◌, length, ◌*◌, ◌-◌, ◌%◌, ◌≤◌, ◌+◌, ◌/◌, arith, Bool-cases, leb, inl, suc, sub64, inr,
  ◌≡◌, ◌==◌, zero,
}

module _ (next_bid : ℕ → ℕ) (real_blocksize : ℕ) (meta : docblk_meta_size < real_blocksize)
    (word : real_blocksize < 2 ^ 64) where
  abbrev blocksize : ℕ
  blocksize = real_blocksize - docblk_meta_size

  -- From the beginning of a block on, all regions but the last one take a whole block.
  count_whole :
      (fuel bid remaining : ℕ)
      → length (region_loop next_bid real_blocksize fuel bid 0 remaining) * blocksize
        ≤ remaining + blocksize
  unfolding region_loop
  count_whole zero bid remaining = omega arith
  count_whole (suc fuel) bid remaining =
      let same : sub64 (real_blocksize - docblk_meta_size) 0 ≡ blocksize = omega arith in
      let rest = count_whole fuel (next_bid bid) (remaining - blocksize) in
      elim (Bool-cases (remaining == 0)) [
        | inl t ↦ rw (same, t) (omega arith)
        | inr f ↦ elim (Bool-cases (leb blocksize remaining)) [
          | inl u ↦
              rw (same, f, u)
                (let full : blocksize ≤ remaining = ground arith in omega (arith, rest, full))
          | inr v ↦ rw (same, f, v) (omega arith)
        ]
      ]

  at_most :
      (n remaining : ℕ) → n * blocksize ≤ remaining + blocksize → n ≤ remaining / blocksize + 1
  at_most n remaining h = elim (Bool-cases (leb n (remaining / blocksize + 1))) [
    | inl t ↦ ground arith
    | inr f ↦
        (let more : remaining / blocksize + 2 ≤ n = ground arith in
          let parts = div-add-mod' remaining blocksize in
          let less = mod-lt remaining {m = blocksize} (omega arith) in
          let scaled = mul-le-mul_right blocksize more in absurd (omega arith))
  ]

  count_from :
      (fuel bid pos remaining : ℕ)
      → pos < blocksize
      → length (region_loop next_bid real_blocksize fuel bid pos remaining)
        ≤ remaining / blocksize + 2
  unfolding region_loop
  count_from zero bid pos remaining h = omega arith
  count_from (suc fuel) bid pos remaining h =
      let same : sub64 (real_blocksize - docblk_meta_size) pos ≡ blocksize - pos = omega arith in
      let rest = count_whole fuel (next_bid bid) (remaining - (blocksize - pos)) in
      let few =
        at_most
          (length (
            region_loop next_bid real_blocksize fuel (next_bid bid) 0
              (remaining - (blocksize - pos))))
          remaining (omega arith) in
      elim (Bool-cases (remaining == 0)) [
        | inl t ↦ rw (same, t) (omega arith)
        | inr f ↦ elim (Bool-cases (leb (blocksize - pos) remaining)) [
          | inl u ↦ rw (same, f, u) (omega (arith, few))
          | inr v ↦ rw (same, f, v) (omega arith)
        ]
      ]

-- A document that starts before the metadata of its block has at most as many regions as
-- `filemgr_actual_stale_regions` allocates room for.
pub length-filemgr_actual_stale_regions :
    (next_bid : ℕ → ℕ) (file : Filemgr) (offset len : ℕ)
    → docblk_meta_size < file.blocksize
    → file.blocksize < 2 ^ 64
    → offset % file.blocksize < file.blocksize - docblk_meta_size
    → length (filemgr_actual_stale_regions next_bid file offset len)
      ≤ len / (file.blocksize - docblk_meta_size) + 2
unfolding filemgr_actual_stale_regions
length-filemgr_actual_stale_regions next_bid file offset len h k l =
    elim (Bool-cases (ver_non_consecutive_doc file.version)) [
      | inl t ↦ rw t (
          count_from next_bid file.blocksize h k (suc len) (offset / file.blocksize)
            (offset % file.blocksize) len l)
      | inr f ↦ rw f (omega arith)
    ]
