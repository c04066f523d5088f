-- ===== src/Stale/Merge/Tree.antt =====
-- The tree of regions in order, around a position.
use forestdb.Stale.Merge.{StaleData, avl_search, below, above, List, Option, ℕ}
use forestdb.Common.{
  Option, ℕ, List, ◌<◌, ◌∷◌, ◌+◌, Bool, ◌≤◌, ◌≡◌, ◌++◌, none, Bool-cases, false, ltb, [], arith,
  ◌||◌, leb, inl, some, true, ◌&&◌, refl, ◌==◌, ltb→lt, inr, ◌^◌, ◌-◌,
}

abbrev pub within : StaleData → ℕ → Bool
within r x = leb r.pos x && ltb x (r.pos + r.len)

-- Whether some region covers a position.
unfoldable pub covers : List StaleData → ℕ → Bool
covers [] x = false
covers (r ∷ rs) x = within r x || covers rs x

-- No 2^32 positions behind each other are all covered.
unfoldable pub NoRun : (ℕ → Bool) → Type 0
NoRun f = (x : ℕ) → (i : ℕ) × (i < 2 ^ 32) × (f (x + i) ≡ false)

-- What covers less has no such run either.
pub NoRun-less : (f g : ℕ → Bool) → ((x : ℕ) → g x ≡ true → f x ≡ true) → NoRun f → NoRun g
unfolding NoRun
NoRun-less f g h n x =
    let (i, small, clear) = n x in
    (
      i,
      small,
      elim (Bool-cases (g (x + i))) [
        | inl t ↦ (let c = h (x + i) t in absurd (ground (arith, c, clear)))
        | inr e ↦ e
      ],
    )

-- Nothing is covered from some position on.
pub NoRun-below : (f : ℕ → Bool) (hi : ℕ) → hi < 2 ^ 32 → ((x : ℕ) → hi ≤ x → f x ≡ false) → NoRun f
unfolding NoRun
NoRun-below f hi small h x = (hi - x, omega arith, h (x + (hi - x)) (omega arith))

-- The positions ascend, from `lo` on.
unfoldable pub Ascends : ℕ → List StaleData → Type 0
Ascends lo [] = Unit
Ascends lo (r ∷ rs) = (lo ≤ r.pos) × Ascends (r.pos + 1) rs

-- They ascend, and stay below `hi`.
unfoldable pub Between : ℕ → ℕ → List StaleData → Type 0
Between lo hi [] = Unit
Between lo hi (r ∷ rs) = (lo ≤ r.pos) × (r.pos < hi) × Between (r.pos + 1) hi rs

unfoldable pub found : Option StaleData → ℕ → Bool
found none x = false
found (some r) x = within r x

pub Ascends-weaken : (lo lo' : ℕ) (rs : List StaleData) → lo' ≤ lo → Ascends lo rs → Ascends lo' rs
unfolding Ascends
Ascends-weaken lo lo' [] h a = tt
Ascends-weaken lo lo' (r ∷ rs) h (p, a) = (omega arith, a)

above_all : (lo pos : ℕ) (rs : List StaleData) → pos < lo → Ascends lo rs → above rs pos ≡ rs
unfolding Ascends above
above_all lo pos [] h a = refl
above_all lo pos (r ∷ rs) h (p, a) = let less : ltb pos r.pos ≡ true = ground arith in rw less refl

avl_search-none :
    (lo pos : ℕ) (rs : List StaleData) → pos < lo → Ascends lo rs → avl_search rs pos ≡ none
unfolding Ascends avl_search
avl_search-none lo pos [] h a = refl
avl_search-none lo pos (r ∷ rs) h (p, a) =
    let other : (r.pos == pos) ≡ false = ground arith in
    rw other (avl_search-none (r.pos + 1) pos rs (omega arith) a)

pub covers-append :
    (xs ys : List StaleData) (x : ℕ) → covers (xs ++ ys) x ≡ covers xs x || covers ys x
unfolding covers
covers-append [] ys x = refl
covers-append (r ∷ rs) ys x = let rest = covers-append rs ys x in rw rest (ground arith)

pub covers-parts :
    (lo pos : ℕ) (rs : List StaleData) (x : ℕ)
    → Ascends lo rs
    → covers rs x
      ≡ covers (below rs pos) x || (found (avl_search rs pos) x || covers (above rs pos) x)
unfolding covers Ascends below avl_search above found
covers-parts lo pos [] x a = refl
covers-parts lo pos (r ∷ rs) x (p, a) = elim (Bool-cases (ltb r.pos pos)) [
  | inl less ↦
      (let rest = covers-parts (r.pos + 1) pos rs x a in
        let other : (r.pos == pos) ≡ false = ground arith in
        let before : ltb pos r.pos ≡ false = ground arith in
        rw (less, other, before, rest) (ground arith))
  | inr more ↦ elim (Bool-cases (r.pos == pos)) [
    | inl same ↦
        (let at : r.pos ≡ pos = ground arith in
          let before : ltb pos r.pos ≡ false = ground arith in
          rw (more, same, before, above_all (r.pos + 1) pos rs (omega arith) a) refl)
    | inr other ↦
        (let after : ltb pos r.pos ≡ true = ground arith in
          rw (more, other, after, avl_search-none (r.pos + 1) pos rs (ground arith) a) refl)
  ]
]

pub Between-below :
    (lo pos : ℕ) (rs : List StaleData) → Ascends lo rs → Between lo pos (below rs pos)
unfolding Ascends below Between
Between-below lo pos [] a = tt
Between-below lo pos (r ∷ rs) (p, a) = elim (Bool-cases (ltb r.pos pos)) [
  | inl t ↦ rw t (p, ltb→lt r.pos pos t, Between-below (r.pos + 1) pos rs a)
  | inr f ↦ rw f tt
]

pub Ascends-above :
    (lo pos : ℕ) (rs : List StaleData) → Ascends lo rs → Ascends (pos + 1) (above rs pos)
unfolding Ascends above
Ascends-above lo pos [] a = tt
Ascends-above lo pos (r ∷ rs) (p, a) = elim (Bool-cases (ltb pos r.pos)) [
  | inl t ↦ rw t (omega (arith, ltb→lt pos r.pos t), a)
  | inr f ↦ rw f (Ascends-above (r.pos + 1) pos rs a)
]

pub Ascends-append :
    (lo hi : ℕ) (bs ns : List StaleData)
    → lo ≤ hi
    → Between lo hi bs
    → Ascends hi ns
    → Ascends lo (bs ++ ns)
unfolding Ascends Between
Ascends-append lo hi [] ns l b a = Ascends-weaken hi lo ns l a
Ascends-append lo hi (r ∷ rs) ns l (h, k, b) a =
    (h, Ascends-append (r.pos + 1) hi rs ns (omega arith) b a)
