-- ===== src/Superblock/Return/Laws.antt =====
-- What `sb_return_reusable_blocks` gives back, and what it misses.
use forestdb.Superblock.Return.{
  drop_upto, jump, at_boundary, next_idx, next_cur, Returned, give, return_loop, return_fuel,
  is_bmp_set,
}
use forestdb.Superblock.Index.{search}
use forestdb.Superblock.Bitmap.{is_bmp_set}
use forestdb.Common.{
  ℕ, List, Bool, ap, ◌∷◌, ◌<◌, [], ◌/◌, Bool-cases, inl, arith, leb, inr, ◌*◌, ◌≡◌, ◌+◌, ◌≤◌, ◌⊎◌,
  true, some, ◌%◌, suc, ◌==◌, ltb, ◌&&◌, zero, refl, ◌∙◌, false,
}

-- Whether nodes are all behind `n`.
abbrev HeadAbove : ℕ → List ℕ → Type 0
HeadAbove n [] = Unit {0}
HeadAbove n (id ∷ idx) = n < id

drop_upto-HeadAbove : (n : ℕ) (idx : List ℕ) → HeadAbove n (drop_upto n idx)
unfolding drop_upto
drop_upto-HeadAbove n [] = tt
drop_upto-HeadAbove n (id ∷ idx) = elim (Bool-cases (leb id n)) [
  | inl e ↦ rw e (drop_upto-HeadAbove n idx)
  | inr e ↦ rw e (ground arith)
]

jump_above :
    (size cur : ℕ) (idx : List ℕ) → cur < size → HeadAbove (cur / 256) idx → cur < jump size idx
unfolding jump
jump_above size cur [] h k = h
jump_above size cur (id ∷ idx) h k = omega arith

-- Each round goes on, and at the start of a node it passes the whole node.
pub next_cur_above : (size cur : ℕ) (idx : List ℕ) → cur < size → cur < next_cur size cur idx
unfolding next_cur next_idx
next_cur_above size cur idx h = elim (Bool-cases (at_boundary cur)) [
  | inl e ↦ rw e (omega (arith, jump_above size cur _ h (drop_upto-HeadAbove (cur / 256) _)))
  | inr e ↦ rw e (omega arith)
]

jump_two :
    (size k : ℕ) (idx : List ℕ)
    → 256 * k < size
    → HeadAbove (256 * k / 256) idx
    → (256 * k + 256 < jump size idx + 1) ⊎ (size < jump size idx + 1)
unfolding jump
jump_two size k [] h n = inr (omega arith)
jump_two size k (id ∷ idx) h n = inl (omega arith)

-- Passing a boundary passes the node behind it, and its last neighbour.
pub boundary_above :
    (size k : ℕ) (idx : List ℕ)
    → 0 < k
    → 256 * k < size
    → (256 * k + 256 < next_cur size (256 * k) idx) ⊎ (size < next_cur size (256 * k) idx)
unfolding next_cur next_idx at_boundary
boundary_above size k idx pos h =
    let yes_boundary : (256 * k % 256 == 0 && ltb 0 (256 * k)) ≡ true = ground arith in
    rw yes_boundary (jump_two size k _ h (drop_upto-HeadAbove (256 * k / 256) _))

-- Enough fuel, and what is given back.
pub record IsReturned (bmp : List ℕ) (size cur : ℕ) (r : Returned) : Type 0 where
  pub only : (b : ℕ) → search b r.stale ≡ true → (cur ≤ b) × (b < size) × (is_bmp_set bmp b ≡ true)

nothing_found : (b : ℕ) → search b [] ≡ true → ⊥
unfolding search
nothing_found b p = cc

give-IsReturned :
    (bmp : List ℕ) (size cur next : ℕ) (r : Returned) (set : Bool)
    → is_bmp_set bmp cur ≡ set
    → cur < size
    → cur < next
    → IsReturned bmp size next r
    → IsReturned bmp size cur (give set cur r)
unfolding search
give-IsReturned bmp size cur next r true e h k v = record {
  only = λ b p. elim (Bool-cases (b == cur)) [
    | inl same ↦
        (let at : b ≡ cur = ground arith in (omega arith, omega arith, ap (is_bmp_set bmp) at ∙ e))
    | inr other ↦
        (let q : search b r.stale ≡ true = ground arith in
          let o = v.only b q in (omega (arith, o.0), o.1, o.2))
  ];
}
give-IsReturned bmp size cur next r false e h k v = record {
  only = λ b p. (let o = v.only b p in (omega (arith, o.0), o.1, o.2));
}

pub return_loop-IsReturned :
    (fuel : ℕ) (bmp : List ℕ) (size cur : ℕ) (idx : List ℕ)
    → return_fuel size cur ≤ fuel
    → (r : Returned) × (return_loop fuel bmp size cur idx ≡ some r) × IsReturned bmp size cur r
unfolding return_loop
return_loop-IsReturned zero bmp size cur idx h = absurd (omega arith)
return_loop-IsReturned (suc fuel) bmp size cur idx h = elim (Bool-cases (ltb cur size)) [
  | inl e ↦
      let on = next_cur_above size cur idx (ground arith) in
      let (r, found, v) =
        return_loop-IsReturned fuel bmp size (next_cur size cur idx) (next_idx cur idx)
          (ground arith) in
      (
        _,
        rw (e, found),
        give-IsReturned bmp size cur _ r (is_bmp_set bmp cur) refl (ground arith) on v,
      )
  | inr e ↦
      (record { stale = []; idx = idx }, rw e, record { only = λ b p. absurd (nothing_found b p) })
]
