-- ===== src/Superblock/Reclaim/Ready.antt =====
-- A reclaimed or reserved bitmap is in order, for the blocks of the reusable regions.
use forestdb.Common.Bits.{bit}
use forestdb.Superblock.State.{Superblock, RsvBmp, sync}
use forestdb.Superblock.Bitmap.{is_bmp_set}
use forestdb.Superblock.Bitmap.Writes.{is_bmp_set-bit_at}
use forestdb.Superblock.Index.{search, remove, free_loop, free_bmp_idx}
use forestdb.Superblock.Alloc.Blocks.{blocks}
use forestdb.Superblock.Alloc.Spec.{
  IsPool, IsValid, pool, pools, ReserveIsPool, RsvIsPool, rsv_pool,
}
use forestdb.Superblock.Reclaim.{
  Region, StaleHeader, Filling, returns, fill_loop, install, new_reserve,
  sb_reclaim_reusable_blocks, sb_reserve_next_reusable_blocks, List, ℕ, RsvStatus,
}
use forestdb.Superblock.Reclaim.Fill.{covered, Ordered, Ordered-le, IsFilled, fill_loop-IsFilled}
use forestdb.Superblock.Reclaim.Pool.{
  expand, length-expand, node_covered_of, node_covered_above, blocks-expand,
}
use forestdb.Common.{
  List, ℕ, ◌<◌, false, ◌≡◌, add64, ◌∷◌, blk_not_found, ◌∙◌, ◌^◌, suc, [], true, ◌/◌, refl, length,
  ◌==◌, arith, zero, ◌-◌, ◌%◌, length-calloc, calloc, ap, sym, get_or-calloc, none, ◌+◌, ◌≢◌, ◌≤◌,
  some, ltb,
}

cur-fill_later : (rs : List Region) (f : Filling) → (fill_loop false rs f).cur ≡ f.cur
unfolding fill_loop
cur-fill_later [] f = refl
cur-fill_later (r ∷ rs) f = cur-fill_later rs _

cur-fill_first :
    (r : Region) (rs : List Region) (f : Filling)
    → f.cur ≡ blk_not_found
    → (fill_loop true (r ∷ rs) f).cur ≡ r.bid
unfolding fill_loop
cur-fill_first r rs f e = cur-fill_later rs _ ∙ rw e

bit_zero : (n : ℕ) → bit 0 n ≡ 0
bit_zero zero = refl
bit_zero (suc n) = bit_zero n

-- A bitmap from `calloc` has no set bit.
fresh_bits : (n b : ℕ) → is_bmp_set (calloc n) b ≡ false
fresh_bits n b = is_bmp_set-bit_at (calloc n) b ∙ rw (get_or-calloc n (b / 8), bit_zero (7 - b % 8))

free_loop_all : (ks : List ℕ) → free_loop ks ks ≡ []
unfolding free_loop remove
free_loop_all [] = refl
free_loop_all (k ∷ ks) = let same : (k == k) ≡ true = ground arith in rw same (free_loop_all ks)

-- The state of the loop before its first round.
abbrev start : ℕ → List ℕ → Filling
start num_blocks idx = record {
  bmp = calloc (add64 num_blocks 7 / 8);
  idx = idx;
  free = 0;
  cur = blk_not_found;
}

module _ (num_blocks : ℕ) (r : Region) (rs : List Region) (small : num_blocks < 2 ^ 62)
    (ordered : Ordered 0 num_blocks (r ∷ rs)) where
  abbrev out : Filling
  out = fill_loop true (r ∷ rs) (start num_blocks [])

  filled : IsFilled (r ∷ rs) (start num_blocks []) out
  filled =
      let bound = Ordered-le 0 num_blocks (r ∷ rs) ordered in
      fill_loop-IsFilled (r ∷ rs) true (start num_blocks []) 0 num_blocks ordered
        (omega (arith, length-calloc (add64 num_blocks 7 / 8))) (omega arith) (omega arith)
        (omega arith)

  out_bits : (b : ℕ) → is_bmp_set out.bmp b ≡ covered (r ∷ rs) b
  out_bits b = filled.bits b ∙ ground (arith, fresh_bits (add64 num_blocks 7 / 8) b)

  out_cur : out.cur ≡ r.bid
  out_cur = cur-fill_first r rs (start num_blocks []) refl

  from_first : Ordered r.bid num_blocks (r ∷ rs)
  from_first = (omega arith, ordered.1, ordered.2)

  out_blocks : blocks out.bmp num_blocks out.cur ≡ expand (r ∷ rs)
  out_blocks =
      rw out_cur (blocks-expand out.bmp num_blocks (r ∷ rs) r.bid from_first (λ b h. out_bits b))

  out_free : out.free ≡ length (expand (r ∷ rs))
  out_free = omega (arith, filled.counted, length-expand (r ∷ rs))

  pub fill-IsPool :
      (pool out.bmp num_blocks out.free out.cur ≡ expand (r ∷ rs))
      × IsPool out.bmp num_blocks out.idx out.free out.cur
  unfolding search
  fill-IsPool =
      let bound = Ordered-le (r.bid + r.count) num_blocks rs ordered.2 in
      let first_set : is_bmp_set out.bmp r.bid ≡ true = out_bits r.bid ∙ ground arith in
      let some_free : (out.free == 0) ≡ false = ground (arith, filled.counted) in
      (
        rw some_free out_blocks,
        record {
          exists = omega arith;
          in_bitmap = λ n. rw out_cur (omega arith);
          bit = λ n. rw out_cur first_set;
          counted = λ n. ap length out_blocks ∙ sym out_free;
          ascending = λ n. filled.ascending;
          least = λ n j h. rw out_cur (
              node_covered_above r.bid num_blocks (r ∷ rs) j from_first
                (ground (arith, filled.nodes j)));
          covers = λ n c p q h.
              filled.nodes (c / 256)
              ∙ ground
                  (arith, node_covered_of 0 num_blocks (r ∷ rs) c ordered (sym (out_bits c) ∙ h));
        },
      )

-- On a superblock without free blocks, and with reusable regions that are not empty, ascend
-- without overlap and lie inside the file, `sb_reclaim_reusable_blocks` flushes the file once,
-- returns true and leaves a superblock whose allocations hand out exactly the blocks of the regions
-- in order, and that is valid, as its reserve was.
pub sb_reclaim-pools :
    (sb : Superblock) (pos blocksize : ℕ) (sheader : StaleHeader) (r : Region) (rs : List Region)
    → sb.num_free_blocks ≡ 0
    → sb.cur_alloc_bid ≡ blk_not_found
    → sheader.bid ≢ blk_not_found
    → 4 ≤ pos / blocksize
    → pos / blocksize < 2 ^ 62
    → Ordered 0 (pos / blocksize) (r ∷ rs)
    → ReserveIsPool sb.rsv_bmp
    → (after : Superblock) × (sb_reclaim_reusable_blocks sb pos blocksize sheader (r ∷ rs)
        ≡ returns true after (sync ∷ []))
      × ((pools after).current ≡ expand (r ∷ rs))
      × (after.rsv_bmp ≡ sb.rsv_bmp)
      × IsValid after
unfolding sb_reclaim_reusable_blocks free_bmp_idx install
sb_reclaim-pools sb pos blocksize sheader r rs none_free no_cur header four small ordered reserve =
    let num_blocks = pos / blocksize in
    let ready = fill-IsPool num_blocks r rs small ordered in
    let valid : (sheader.bid == blk_not_found) ≡ false = ground arith in
    let enough : ltb num_blocks 4 ≡ false = ground arith in
    (
      install sb num_blocks sheader (fill_loop true (r ∷ rs) (start num_blocks [])),
      rw (none_free, no_cur, free_loop_all sb.bmp_idx, valid, enough),
      ready.0,
      refl,
      record { current = ready.1; reserve = reserve },
    )

-- Let there be regions to reserve, at least one, which ascend, do not overlap and lie inside a file of
-- fewer than 2^62 blocks; let the block of the stale header be known, and nothing be reserved yet.
-- Then `sb_reserve_next_reusable_blocks` returns true, changes nothing but the reserve, and builds one
-- that is not ready yet, carries the next revision number, and is in order for exactly the blocks of
-- the regions.
pub sb_reserve-pool :
    (sb : Superblock) (pos blocksize : ℕ) (sheader : StaleHeader) (r : Region) (rs : List Region)
    → sb.rsv_bmp ≡ none
    → sheader.bid ≢ blk_not_found
    → pos / blocksize < 2 ^ 62
    → Ordered 0 (pos / blocksize) (r ∷ rs)
    → (rsv : RsvBmp) × (sb_reserve_next_reusable_blocks sb pos blocksize sheader (r ∷ rs)
        ≡ (true, record sb { rsv_bmp = some rsv }))
      × (rsv_pool rsv ≡ expand (r ∷ rs))
      × (rsv.status ≡ RsvStatus.initializing)
      × (rsv.bmp_revnum ≡ add64 sb.bmp_revnum 1)
      × RsvIsPool rsv
unfolding sb_reserve_next_reusable_blocks new_reserve
sb_reserve-pool sb pos blocksize sheader r rs absent header small ordered =
    let num_blocks = pos / blocksize in
    let ready = fill-IsPool num_blocks r rs small ordered in
    let bound = Ordered-le (r.bid + r.count) num_blocks rs ordered.2 in
    let valid : (sheader.bid == blk_not_found) ≡ false = ground arith in
    let some_blocks : (num_blocks == 0) ≡ false = ground arith in
    (
      new_reserve sb num_blocks sheader (fill_loop true (r ∷ rs) (start num_blocks [])),
      rw (absent, valid, some_blocks),
      ready.0,
      refl,
      refl,
      ready.1,
    )
