-- ===== src/Superblock/Alloc/Refine.antt =====
-- `sb_alloc_block` implements the allocation from the two lists.
use forestdb.Superblock.State.{Superblock, RsvBmp, is_ready, sync}
use forestdb.Superblock.Switch.{sb_switch_reserved_blocks, switch_rsv, take_reserved, stale_docs}
use forestdb.Superblock.Alloc.{Allocated, switch_or_stop, search_nodes, next_block, List, ℕ}
use forestdb.Superblock.Alloc.Blocks.{blocks, blocks_step}
use forestdb.Superblock.Alloc.Search.{Searched, search_nodes-Searched, length-drop_node}
use forestdb.Superblock.Alloc.Spec.{
  Pools, IsPool, IsValid, pools, pool, alloc_from, reserve_of, ReserveIsPool, RsvIsPool, rsv_pool,
}
use forestdb.Common.{
  ℕ, List, ◌≢◌, ◌≡◌, refl, ◌∷◌, [], Option, some, none, ◌⊎◌, true, inl, Bool-cases, inr, false,
  arith, ◌++◌, ap, ◌∙◌, ◌+◌, sym, length, ◌-◌, ◌/◌, ◌^◌, ◌%◌, ◌*◌,
}

-- A superblock after a call, against what the lists say.
pub record Implements (a : Allocated) (spec : ℕ × Pools) : Type 0 where
  pub ret : a.ret ≡ spec.0
  pub lists : pools a.sb ≡ spec.1
  pub valid : IsValid a.sb

-- An exhausted pool asks nothing of the other fields.
pub IsPool-empty :
    (bmp : List ℕ) (size : ℕ) (idx : List ℕ) (cur : ℕ) → size ≢ 0 → IsPool bmp size idx 0 cur
IsPool-empty bmp size idx cur h = record {
  exists = h;
  in_bitmap = λ n. absurd (n refl);
  bit = λ n. absurd (n refl);
  counted = λ n. absurd (n refl);
  ascending = λ n. absurd (n refl);
  least = λ n. absurd (n refl);
  covers = λ n. absurd (n refl);
}

pub reserve_cases :
    (o : Option RsvBmp)
    → ReserveIsPool o
    → (reserve_of o ≡ none)
      ⊎ ((rsv : RsvBmp) × (o ≡ some rsv)
          × (is_ready rsv.status ≡ true)
          × (reserve_of o ≡ some (rsv_pool rsv))
          × RsvIsPool rsv)
reserve_cases none v = inl refl
reserve_cases (some rsv) v = elim (Bool-cases (is_ready rsv.status)) [
  | inl ready ↦ inr (rsv, refl, ready, rw ready, v)
  | inr busy ↦ inl (rw busy)
]

switch_rsv-none :
    (sb : Superblock) (o : Option RsvBmp)
    → reserve_of o ≡ none
    → switch_rsv sb o ≡ record { done = false; sb = sb; calls = [] }
unfolding switch_rsv
switch_rsv-none sb none h = refl
switch_rsv-none sb (some rsv) h = ground arith

-- A switch fails and changes nothing where no reserved bitmap is ready.
pub switch-none :
    (sb : Superblock)
    → reserve_of sb.rsv_bmp ≡ none
    → sb_switch_reserved_blocks sb ≡ record { done = false; sb = sb; calls = [] }
unfolding sb_switch_reserved_blocks
switch-none sb h = switch_rsv-none sb sb.rsv_bmp h

pub switch-ready :
    (sb : Superblock) (rsv : RsvBmp)
    → sb.rsv_bmp ≡ some rsv
    → is_ready rsv.status ≡ true
    → sb_switch_reserved_blocks sb
      ≡ record { done = true; sb = take_reserved sb rsv; calls = stale_docs sb ++ sync ∷ [] }
unfolding sb_switch_reserved_blocks switch_rsv
switch-ready sb rsv e h = ap (switch_rsv sb) e ∙ rw h

-- No free block is left in the current bitmap.
pub switch_or_stop-Implements :
    (sb : Superblock) (ret : ℕ)
    → sb.num_free_blocks ≡ 0
    → IsValid sb
    → Implements (switch_or_stop sb ret) (alloc_from (ret ∷ []) (reserve_of sb.rsv_bmp))
unfolding switch_or_stop take_reserved
switch_or_stop-Implements sb ret e v = elim (reserve_cases sb.rsv_bmp v.reserve) [
  | inl busy ↦
      rw (switch-none sb busy, busy)
        (record {
          ret = refl;
          lists = ground (arith, busy);
          valid = record {
            current = rw e (IsPool-empty _ _ _ _ v.current.exists);
            reserve = v.reserve;
          };
        })
  | inr (rsv, here, ready, list, w) ↦ rw (switch-ready sb rsv here ready) (record {
    ret = refl;
    lists = sym (ap (λ o. (alloc_from (ret ∷ []) o).1) list);
    valid = record { current = w; reserve = tt };
  })
]

-- The current block heads the list of the free ones.
pub current_first :
    {bmp : List ℕ} {size : ℕ} {idx : List ℕ} {free cur : ℕ}
    → IsPool bmp size idx free cur
    → free ≢ 0
    → (blocks bmp size cur ≡ cur ∷ blocks bmp size (cur + 1))
      × (length (blocks bmp size (cur + 1)) + 1 ≡ free)
current_first {bmp} {size} {cur} v n =
    let split : blocks bmp size cur ≡ cur ∷ blocks bmp size (cur + 1) =
      blocks_step bmp size cur (v.in_bitmap n) ∙ rw (v.bit n) in
    (split, omega (arith, v.counted n, ap length split))

-- The search behind the current block.
pub search_behind :
    {bmp : List ℕ} {size : ℕ} {idx : List ℕ} {free cur : ℕ}
    → IsPool bmp size idx free cur
    → free ≢ 0
    → Searched bmp size
        (cur + 1)
        (search_nodes (length idx + 2) bmp size idx (cur / 2 ^ 8) (cur % 2 ^ 8 + 1))
search_behind {bmp} {size} {idx} {cur} v n =
    let from : cur / 256 * 256 + (cur % 256 + 1) ≡ cur + 1 = omega arith in
    rw from at (
      search_nodes-Searched bmp size (length idx + 2) idx (cur / 256) (cur % 256 + 1) (omega arith)
        (omega (arith, length-drop_node (cur / 256) idx)) (v.ascending n) (v.least n) (v.covers n))

-- The next block found becomes the current one.
pub next_block-IsPool :
    {bmp : List ℕ} {size : ℕ} {idx rest : List ℕ} {free cur x : ℕ}
    → IsPool bmp size idx free cur
    → free ≢ 0
    → Searched bmp size (cur + 1) (next_block x rest)
    → (pool bmp size (free - 1) x ≡ blocks bmp size (cur + 1)) × IsPool bmp size rest (free - 1) x
next_block-IsPool {bmp} {size} {rest} {free} {cur} {x} v n (found, low, bit, a, least, covers) =
    let here : blocks bmp size x ≡ x ∷ blocks bmp size (x + 1) =
      blocks_step bmp size x low ∙ rw bit in
    let same : blocks bmp size x ≡ blocks bmp size (cur + 1) = here ∙ sym found in
    let count : length (blocks bmp size (cur + 1)) + 1 ≡ free = (current_first v n).1 in
    let more : free - 1 ≢ 0 = omega (arith, ap length found) in
    (
      ground arith,
      record {
        exists = v.exists;
        in_bitmap = λ m. low;
        bit = λ m. bit;
        counted = λ m. omega (arith, ap length same);
        ascending = λ m. a;
        least = λ m. least;
        covers = λ m. covers;
      },
    )
