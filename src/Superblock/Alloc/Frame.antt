-- ===== src/Superblock/Alloc/Frame.antt =====
-- What a call of `sb_alloc_block` leaves alone while another free block remains.
use forestdb.Superblock.State.{Superblock, bytes}
use forestdb.Superblock.Alloc.{
  sb_alloc_block, start_over, take_current, after_search, search_nodes, Found, next_block, no_block,
  out_of_fuel, ◌-◌, ℕ,
}
use forestdb.Superblock.Alloc.Blocks.{blocks_least}
use forestdb.Superblock.Alloc.Search.{Searched}
use forestdb.Superblock.Alloc.Spec.{IsValid}
use forestdb.Superblock.Alloc.Refine.{current_first, search_behind}
use forestdb.Common.{
  ◌-◌, ℕ, ◌≢◌, List, ◌≡◌, arith, ◌+◌, length, ◌==◌, ◌<◌, ◌/◌, ap, false, add64, ◌^◌, refl, ◌%◌,
}

-- The superblock after a call that returned the current block and found `next`.
pub record Advanced (sb after : Superblock) (ret : ℕ) : Type 0 where
  pub next : ℕ
  pub rest : List ℕ
  pub returned : ret ≡ sb.cur_alloc_bid
  pub above : sb.cur_alloc_bid < next
  pub changed : after ≡ record sb {
    num_alloc = add64 sb.num_alloc 1;
    num_free_blocks = sb.num_free_blocks - 1;
    cur_alloc_bid = next;
    bmp_idx = rest;
  }

module _ (sb : Superblock) (v : IsValid sb) (n : sb.num_free_blocks - 1 ≢ 0) where
  abbrev looked_up : Found
  looked_up =
      search_nodes (length sb.bmp_idx + 2) (bytes sb.bmp) sb.bmp_size sb.bmp_idx
        (sb.cur_alloc_bid / 2 ^ 8) (sb.cur_alloc_bid % 2 ^ 8 + 1)

  finds_next :
      (o : Found)
      → Searched (bytes sb.bmp) sb.bmp_size (sb.cur_alloc_bid + 1) o
      → (x : ℕ) × (rest : List ℕ) × (o ≡ next_block x rest) × (sb.cur_alloc_bid < x)
  finds_next (next_block x rest) s =
      let least = blocks_least (bytes sb.bmp) sb.bmp_size (sb.cur_alloc_bid + 1) x _ s.0 in
      (x, rest, refl, omega (arith, least))
  finds_next (no_block idx) s =
      absurd (omega (arith, (current_first v.current (omega arith)).1, ap length s))
  finds_next out_of_fuel s = absurd s

  pub sb_alloc_block-Advanced : Advanced sb (sb_alloc_block sb).sb (sb_alloc_block sb).ret
  unfolding sb_alloc_block start_over take_current after_search
  sb_alloc_block-Advanced =
      let (x, rest, found, above) = finds_next looked_up (search_behind v.current (omega arith)) in
      let there : (sb.bmp_size == 0) ≡ false = ground (arith, v.current.exists) in
      let some_free : (sb.num_free_blocks == 0) ≡ false = ground arith in
      let more : (sb.num_free_blocks - 1 == 0) ≡ false = ground arith in
      rw (there, some_free, more, found)
        (record { next = x; rest = rest; returned = refl; above = above; changed = refl })
