-- ===== src/Stale/Reuse/Reclaim.antt =====
-- The blocks cut out of stale regions, as the superblock takes them up.
use forestdb.Stale.Merge.{StaleData}
use forestdb.Stale.Merge.Tree.{covers}
use forestdb.Stale.Reuse.{cut_item, cut_step, cut_loop, reusable_blocks, ℕ}
use forestdb.Stale.Reuse.Parts.{in_blocks, IsMiddle, cut_item-IsCut}
use forestdb.Stale.Reuse.Bytes.{Disjoint}
use forestdb.Stale.Reuse.Safety.{in_blocks-cut_loop}
use forestdb.Superblock.Reclaim.{Region, StaleHeader, returns, sb_reclaim_reusable_blocks}
use forestdb.Superblock.Reclaim.Fill.{Ordered}
use forestdb.Superblock.Reclaim.Pool.{count_up, expand}
use forestdb.Superblock.Reclaim.Ready.{sb_reclaim-pools}
use native.Mathlib.Nat.{le_of_mul-le-mul_right, mul-le-mul_right}
use forestdb.Superblock.State.{Superblock, sync}
use forestdb.Superblock.Alloc.Spec.{pools, ReserveIsPool, IsValid}
use forestdb.Common.{
  ℕ, List, ◌<◌, Option, ◌*◌, ◌∷◌, ◌≤◌, ◌+◌, arith, ◌++◌, [], some, none, Bool-cases, ltb, inl, inr,
  ◌≡◌, true, ◌/◌, blk_not_found, suc, ◌≢◌, zero, ◌^◌, ap, subst, ◌∙◌, sym,
}

-- All regions end by `size`.
unfoldable pub Inside : ℕ → List StaleData → Type 0
Inside size [] = Unit
Inside size (r ∷ rs) = (r.pos + r.len ≤ size) × Inside size rs

multiple-cancel : (b c n : ℕ) → 0 < n → b * n ≤ c * n → b ≤ c
multiple-cancel b c n h k = le_of_mul-le-mul_right {k = n} k h

Ordered-append :
    (blocksize b n first last end : ℕ) (blocks rest : List Region)
    → 0 < blocksize
    → b * blocksize ≤ first
    → first ≤ last
    → last ≤ end
    → IsMiddle blocksize first last blocks
    → ((c : ℕ) → c * blocksize ≤ end → Ordered c n rest)
    → Ordered b n (blocks ++ rest)
unfolding IsMiddle
Ordered-append blocksize b n first last end [] rest h k l m e o = o b (omega arith)
Ordered-append blocksize b n first last end (r ∷ rs) rest h k l m (p, q, c, e) o =
    rw e (multiple-cancel b r.bid blocksize h (omega arith), c, o (r.bid + r.count) (omega arith))

cut_item-Ordered :
    (blocksize b n : ℕ) (item : StaleData) (rest : List Region)
    → 0 < blocksize
    → b * blocksize ≤ item.pos
    → ((c : ℕ) → c * blocksize ≤ item.pos + item.len → Ordered c n rest)
    → Ordered b n ((cut_item blocksize item).blocks ++ rest)
cut_item-Ordered blocksize b n item rest h k o =
    let c = cut_item-IsCut blocksize item h in
    Ordered-append blocksize b n c.first c.last (item.pos + item.len)
      (cut_item blocksize item).blocks rest h (omega (arith, c.low)) c.mid c.high c.middle o

cut_step-Ordered :
    (blocksize b n : ℕ) (waiting : Option StaleData) (item : StaleData) (rest : List Region)
    → 0 < blocksize
    → b * blocksize ≤ item.pos
    → ((c : ℕ) → c * blocksize ≤ item.pos + item.len → Ordered c n rest)
    → Ordered b n ((cut_step blocksize waiting item).blocks ++ rest)
unfolding cut_step
cut_step-Ordered blocksize b n none item rest h k o = cut_item-Ordered blocksize b n item rest h k o
cut_step-Ordered blocksize b n (some r) item rest h k o = elim (Bool-cases (ltb item.pos r.pos)) [
  | inl t ↦ rw t (o b (omega arith))
  | inr f ↦ rw f (cut_item-Ordered blocksize b n item rest h k o)
]

cut_loop-Ordered :
    (blocksize lo b n : ℕ) (waiting : Option StaleData) (items : List StaleData)
    → 0 < blocksize
    → b * blocksize ≤ lo
    → lo ≤ n * blocksize
    → Disjoint lo items
    → Inside (n * blocksize) items
    → Ordered b n (cut_loop blocksize waiting items).0
unfolding cut_loop Disjoint Inside
cut_loop-Ordered blocksize lo b n none [] h k l d i = multiple-cancel b n blocksize h (omega arith)
cut_loop-Ordered blocksize lo b n (some r) [] h k l d i =
    multiple-cancel b n blocksize h (omega arith)
cut_loop-Ordered blocksize lo b n waiting (item ∷ items) h k l (p, d) (q, i) =
    let cut = cut_step blocksize waiting item in
    cut_step-Ordered blocksize b n waiting item (cut_loop blocksize cut.new_item items).0 h
      (omega arith)
      (λ c m. cut_loop-Ordered blocksize (item.pos + item.len) c n cut.new_item items h m q d i)

-- Every byte of every block of the list is stale.
unfoldable pub AllStale : ℕ → List StaleData → List ℕ → Type 0
AllStale blocksize mergetree [] = Unit
AllStale blocksize mergetree (b ∷ bs) =
    ((offset : ℕ) → offset < blocksize → covers mergetree (b * blocksize + offset) ≡ true)
    × AllStale blocksize mergetree bs

AllStale-append :
    (blocksize : ℕ) (mergetree : List StaleData) (xs ys : List ℕ)
    → AllStale blocksize mergetree xs
    → AllStale blocksize mergetree ys
    → AllStale blocksize mergetree (xs ++ ys)
unfolding AllStale
AllStale-append blocksize mergetree [] ys h k = k
AllStale-append blocksize mergetree (x ∷ xs) ys (p, h) k =
    (p, AllStale-append blocksize mergetree xs ys h k)

AllStale-count_up :
    (blocksize : ℕ) (mergetree : List StaleData) (low high n b : ℕ)
    → ((x : ℕ) → low * blocksize ≤ x → x < high * blocksize → covers mergetree x ≡ true)
    → low ≤ b
    → b + n ≤ high
    → AllStale blocksize mergetree (count_up n b)
unfolding AllStale
AllStale-count_up blocksize mergetree low high zero b h k l = tt
AllStale-count_up blocksize mergetree low high (suc n) b h k l = (
  λ offset m.
      (let from = mul-le-mul_right blocksize k in
        let upto = mul-le-mul_right {m = b + 1} {n = high} blocksize (omega arith) in
        h (b * blocksize + offset) (omega arith) (omega arith)),
  AllStale-count_up blocksize mergetree low high n (b + 1) h (omega arith) (omega arith),
)

AllStale-expand :
    (blocksize : ℕ) (mergetree : List StaleData) (rs : List Region)
    → ((x : ℕ) → in_blocks blocksize rs x ≡ true → covers mergetree x ≡ true)
    → AllStale blocksize mergetree (expand rs)
unfolding in_blocks AllStale
AllStale-expand blocksize mergetree [] h = tt
AllStale-expand blocksize mergetree (r ∷ rs) h =
    AllStale-append blocksize mergetree (count_up r.count r.bid) (expand rs)
      (AllStale-count_up blocksize mergetree r.bid (r.bid + r.count) r.count r.bid
        (λ x p q. h x (ground arith)) (omega arith) (omega arith))
      (AllStale-expand blocksize mergetree rs (λ x k. h x (ground (arith, k))))

-- On a superblock without free blocks, `sb_reclaim_reusable_blocks` over the blocks that were cut out
-- of a merge tree, whose regions are in order, do not overlap and lie inside the file, leaves a
-- valid superblock, and every byte of every block that it hands out from then on was stale.
pub sb_reclaim-reusable_blocks :
    (sb : Superblock) (pos blocksize : ℕ) (sheader : StaleHeader) (mergetree : List StaleData)
    (r : Region) (rs : List Region) (left : List StaleData)
    → reusable_blocks blocksize mergetree ≡ (r ∷ rs, left)
    → 0 < blocksize
    → Disjoint 0 mergetree
    → Inside (pos / blocksize * blocksize) mergetree
    → sb.num_free_blocks ≡ 0
    → sb.cur_alloc_bid ≡ blk_not_found
    → sheader.bid ≢ blk_not_found
    → 4 ≤ pos / blocksize
    → pos / blocksize < 2 ^ 62
    → ReserveIsPool sb.rsv_bmp
    → (after : Superblock) × (sb_reclaim_reusable_blocks sb pos blocksize sheader
          (reusable_blocks blocksize mergetree).0
        ≡ returns true after (sync ∷ []))
      × AllStale blocksize mergetree (pools after).current
      × IsValid after
sb_reclaim-reusable_blocks sb pos blocksize sheader mergetree r rs left cut h d i none_free no_cur
      header four small reserve =
    let blocks : (reusable_blocks blocksize mergetree).0 ≡ r ∷ rs = ap (λ t. t.0) cut in
    let ordered : Ordered 0 (pos / blocksize) (reusable_blocks blocksize mergetree).0 =
      unfold reusable_blocks in
      cut_loop-Ordered blocksize 0 0 (pos / blocksize) none mergetree h (omega arith) (omega arith)
        d i in
    let (after, result, current, rsv, valid) =
      sb_reclaim-pools sb pos blocksize sheader r rs none_free no_cur header four small
        (subst (Ordered 0 (pos / blocksize)) blocks ordered) reserve in
    let stale : AllStale blocksize mergetree (expand (reusable_blocks blocksize mergetree).0) =
      AllStale-expand blocksize mergetree (reusable_blocks blocksize mergetree).0
        (unfold reusable_blocks in (λ x k. in_blocks-cut_loop blocksize none mergetree x h k)) in
    (
      after,
      ap (sb_reclaim_reusable_blocks sb pos blocksize sheader) blocks ∙ result,
      subst (AllStale blocksize mergetree) (ap expand blocks ∙ sym current) stale,
      valid,
    )
