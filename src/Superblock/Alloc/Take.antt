-- ===== src/Superblock/Alloc/Take.antt =====
-- `sb_alloc_block` as a whole against the two lists, and a run of calls.
use forestdb.Superblock.Switch.{take_reserved, stale_docs}
use forestdb.Superblock.State.{Superblock, bytes, sync}
use forestdb.Superblock.Alloc.{
  after_search, take_current, Found, next_block, no_block, out_of_fuel, ◌-◌, sb_alloc_block,
  start_over, Call,
}
use forestdb.Superblock.Alloc.Blocks.{blocks}
use forestdb.Superblock.Alloc.Search.{Searched}
use forestdb.Superblock.Alloc.Spec.{IsValid, alloc_from, reserve_of, pools}
use forestdb.Superblock.Alloc.Refine.{
  Implements, IsPool-empty, switch_or_stop-Implements, current_first, search_behind,
  next_block-IsPool, switch-none, reserve_cases, switch-ready,
}
use forestdb.Common.{
  ◌-◌, ◌≢◌, ◌+◌, Bool-cases, ◌==◌, arith, ap, inl, ◌∙◌, ◌≡◌, length, ==_iff, refl, [], inr, List, ℕ,
  add64, some, suc, none, false, ◌∷◌, ◌≤◌, zero, take, ap₂, ◌⊎◌, sym, ◌++◌,
}

after_search-Implements :
    (sb : Superblock) (o : Found)
    → sb.num_free_blocks - 1 ≢ 0
    → IsValid sb
    → Searched (bytes sb.bmp) sb.bmp_size (sb.cur_alloc_bid + 1) o
    → Implements
        (after_search (record sb { num_free_blocks = sb.num_free_blocks - 1 }) sb.cur_alloc_bid o)
        (alloc_from (blocks (bytes sb.bmp) sb.bmp_size sb.cur_alloc_bid) (reserve_of sb.rsv_bmp))
unfolding after_search
after_search-Implements sb (next_block x idx) n v s =
    let next = next_block-IsPool v.current (omega arith) s in
    rw ((current_first v.current (omega arith)).0, s.0)
      (record {
        ret = refl;
        lists = ap (λ l. record { current = l; reserve = reserve_of sb.rsv_bmp }) (next.0 ∙ s.0);
        valid = record { current = next.1; reserve = v.reserve };
      })
after_search-Implements sb (no_block idx) n v s =
    absurd (omega (arith, (current_first v.current (omega arith)).1, ap length s))
after_search-Implements sb out_of_fuel n v s = absurd s

-- A call with a free block left hands out the first of them.
take_current-Implements :
    (sb : Superblock)
    → sb.num_free_blocks ≢ 0
    → IsValid sb
    → Implements
        (take_current sb)
        (alloc_from (blocks (bytes sb.bmp) sb.bmp_size sb.cur_alloc_bid) (reserve_of sb.rsv_bmp))
unfolding take_current
take_current-Implements sb n v = elim (Bool-cases (sb.num_free_blocks - 1 == 0)) [
  | inl last ↦
      let first = current_first v.current n in
      let gone : sb.num_free_blocks - 1 ≡ 0 = (==_iff _ _).0 last in
      let alone : blocks (bytes sb.bmp) sb.bmp_size (sb.cur_alloc_bid + 1) ≡ [] =
        ground (arith, first.1) in
      let sb' : Superblock = record sb { num_free_blocks = sb.num_free_blocks - 1 } in
      rw (last, first.0, alone)
        (switch_or_stop-Implements sb' sb.cur_alloc_bid gone (record {
          current = rw gone (IsPool-empty _ _ _ _ v.current.exists);
          reserve = v.reserve;
        }))
  | inr more ↦ rw more (after_search-Implements sb _ (ground arith) v (search_behind v.current n))
]

-- Handing out from the reserve alone is handing out from a current list without reserve.
alloc_from_reserve : (l : List ℕ) → alloc_from [] (some l) ≡ alloc_from l none
alloc_from_reserve [] = refl
alloc_from_reserve (x ∷ []) = refl
alloc_from_reserve (x ∷ y ∷ l) = refl

taken-Implements :
    (fuel : ℕ) (sb : Superblock) (calls : List Call)
    → sb.num_free_blocks ≢ 0
    → IsValid sb
    → Implements
        (start_over (suc fuel) sb calls)
        (alloc_from (pools sb).current (reserve_of sb.rsv_bmp))
unfolding start_over
taken-Implements fuel sb calls n v =
    let there : (sb.bmp_size == 0) ≡ false = ground (arith, v.current.exists) in
    let some_free : (sb.num_free_blocks == 0) ≡ false = ground arith in
    let taken = take_current-Implements sb n v in
    rw (there, some_free) (record { ret = taken.ret; lists = taken.lists; valid = taken.valid })

-- Without a ready reserve there is no jump back.
alone-Implements :
    (fuel : ℕ) (sb : Superblock) (calls : List Call)
    → IsValid sb
    → reserve_of sb.rsv_bmp ≡ none
    → Implements (start_over (suc fuel) sb calls) (alloc_from (pools sb).current none)
unfolding start_over
alone-Implements fuel sb calls v busy = elim (Bool-cases (sb.num_free_blocks == 0)) [
  | inr more ↦ rw busy at (taken-Implements fuel sb calls (ground arith) v)
  | inl empty ↦
      let there : (sb.bmp_size == 0) ≡ false = ground (arith, v.current.exists) in
      let zero_free : sb.num_free_blocks ≡ 0 = (==_iff _ _).0 empty in
      rw (there, empty, switch-none sb busy)
        (record {
          ret = refl;
          lists = ground (arith, busy);
          valid = record {
            current = rw zero_free (IsPool-empty _ _ _ _ v.current.exists);
            reserve = v.reserve;
          };
        })
]

start_over-Implements :
    (fuel : ℕ) (sb : Superblock) (calls : List Call)
    → IsValid sb
    → Implements
        (start_over (suc (suc fuel)) sb calls)
        (alloc_from (pools sb).current (pools sb).reserve)
unfolding start_over take_reserved
start_over-Implements fuel sb calls v = elim (Bool-cases (sb.num_free_blocks == 0)) [
  | inr more ↦ taken-Implements (suc fuel) sb calls (ground arith) v
  | inl empty ↦ elim (reserve_cases sb.rsv_bmp v.reserve) [
    | inl busy ↦ rw busy (alone-Implements (suc fuel) sb calls v busy)
    | inr (rsv, here, ready, list, w) ↦
        let there : (sb.bmp_size == 0) ≡ false = ground (arith, v.current.exists) in
        let next =
          alone-Implements fuel (take_reserved sb rsv) (calls ++ (stale_docs sb ++ sync ∷ []))
            (record { current = w; reserve = tt }) refl in
        rw (there, empty, switch-ready sb rsv here ready, list, alloc_from_reserve) next
  ]
]

-- From a valid superblock, `sb_alloc_block` returns what the lists say: the lowest free block of
-- the current bitmap, or `BLK_NOT_FOUND` when there is none; when the current list is used up,
-- the ready reserve takes its place. The superblock is left valid, for the lists that remain.
pub sb_alloc_block-Implements :
    (sb : Superblock)
    → IsValid sb
    → Implements (sb_alloc_block sb) (alloc_from (pools sb).current (pools sb).reserve)
unfolding sb_alloc_block
sb_alloc_block-Implements sb v =
    start_over-Implements 0 (record sb { num_alloc = add64 sb.num_alloc 1 }) []
      (record { current = v.current; reserve = v.reserve })

-- `n` calls in a row, and the blocks that they return.
pub alloc_many : ℕ → Superblock → List ℕ × Superblock
alloc_many zero sb = ([], sb)
alloc_many (suc n) sb =
    let a = sb_alloc_block sb in let (l, sb') = alloc_many n a.sb in (a.ret ∷ l, sb')

no_reserve_after : (l : List ℕ) → (alloc_from l none).1.reserve ≡ none
no_reserve_after [] = refl
no_reserve_after (x ∷ []) = refl
no_reserve_after (x ∷ y ∷ l) = refl

rest_after :
    (x : ℕ) (l : List ℕ)
    → ((alloc_from (x ∷ l) none).1.current ≡ l) × ((alloc_from (x ∷ l) none).0 ≡ x)
rest_after x [] = (refl, refl)
rest_after x (y ∷ l) = (refl, refl)

module _ (sb : Superblock) (v : IsValid sb) (alone : (pools sb).reserve ≡ none) where
  Implements-next : Implements (sb_alloc_block sb) (alloc_from (pools sb).current none)
  Implements-next = rw alone at (sb_alloc_block-Implements sb v)

  next_alone : (pools (sb_alloc_block sb).sb).reserve ≡ none
  next_alone = ap (λ p. p.reserve) Implements-next.lists ∙ no_reserve_after (pools sb).current

  next_current :
      (x : ℕ) (l : List ℕ)
      → (pools sb).current ≡ x ∷ l
      → ((sb_alloc_block sb).ret ≡ x) × ((pools (sb_alloc_block sb).sb).current ≡ l)
  next_current x l e = (
    Implements-next.ret ∙ ap (λ t. (alloc_from t none).0) e ∙ (rest_after x l).1,
    ap (λ p. p.current) Implements-next.lists
        ∙ ap (λ t. (alloc_from t none).1.current) e
        ∙ (rest_after x l).0,
  )

List-cases : (l : List ℕ) → (l ≡ []) ⊎ ((x : ℕ) × (r : List ℕ) × (l ≡ x ∷ r))
List-cases [] = inl refl
List-cases (x ∷ r) = inr (x, r, refl)

split_first :
    (n : ℕ) (sb : Superblock)
    → IsValid sb
    → (pools sb).reserve ≡ none
    → suc n ≤ length (pools sb).current
    → (n ≤ length (pools (sb_alloc_block sb).sb).current
        → (alloc_many n (sb_alloc_block sb).sb).0 ≡ take n (pools (sb_alloc_block sb).sb).current)
    → (alloc_many (suc n) sb).0 ≡ take (suc n) (pools sb).current
unfolding alloc_many
split_first n sb v alone h rest = elim (List-cases (pools sb).current) [
  | inl none_left ↦ absurd (omega (arith, ap length none_left))
  | inr (x, l, e) ↦
      let (first, left) = next_current sb v alone x l e in
      let enough : n ≤ length (pools (sb_alloc_block sb).sb).current =
        omega (arith, ap length e, ap length left) in
      ap₂ ◌∷◌ first (rest enough ∙ ap (take n) left) ∙ ap (take (suc n)) (sym e)
]

-- Without a ready reserve, a run of calls hands out the free blocks of the bitmap in ascending
-- order, each of them once.
pub alloc_many-take :
    (n : ℕ) (sb : Superblock)
    → IsValid sb
    → (pools sb).reserve ≡ none
    → n ≤ length (pools sb).current
    → (alloc_many n sb).0 ≡ take n (pools sb).current
unfolding alloc_many
alloc_many-take zero sb v alone h = refl
alloc_many-take (suc n) sb v alone h =
    let done = Implements-next sb v alone in
    split_first n sb v alone h
      (alloc_many-take n (sb_alloc_block sb).sb done.valid (next_alone sb v alone))
