-- ===== src/Stale/Reuse/Parts.antt =====
-- What becomes of one region: a front, whole blocks and a rest, one behind the other.
use forestdb.Stale.Merge.{StaleData}
use forestdb.Stale.Merge.Tree.{within}
use forestdb.Stale.Reuse.{Cut, front_margin, cut_blocks, keep, cut_item, ℕ, Option}
use forestdb.Superblock.Reclaim.{Region}
use native.Mathlib.Nat.{div-add-mod', mod-lt, mul-div_cancel}
use forestdb.Common.{
  ℕ, Option, ◌≤◌, ◌<◌, ◌≡◌, List, ◌+◌, Bool, ◌/◌, some, arith, ◌∷◌, false, leb, ◌*◌, [], none, refl,
  ◌-◌, ◌&&◌, ltb, ◌||◌, Bool-cases, ap, ◌==◌, ◌%◌, ◌∙◌, inl, sym, inr,
}

-- Whether a position lies in one of the blocks.
unfoldable pub in_blocks : ℕ → List Region → ℕ → Bool
in_blocks blocksize [] x = false
in_blocks blocksize (r ∷ rs) x =
    (leb (r.bid * blocksize) x && ltb x ((r.bid + r.count) * blocksize)) || in_blocks blocksize rs x

unfoldable pub waits : Option StaleData → ℕ → Bool
waits none x = false
waits (some r) x = within r x

-- A new item ends at `hi` and starts at `lo`; without one there is nothing left.
unfoldable pub IsRest : ℕ → ℕ → Option StaleData → Type 0
IsRest lo hi none = lo ≡ hi
IsRest lo hi (some r) = (r.pos ≡ lo) × (r.pos + r.len ≡ hi)

-- The front of an item ends at `lo`.
unfoldable pub IsFront : ℕ → ℕ → List StaleData → Type 0
IsFront pos lo [] = pos ≡ lo
IsFront pos lo (r ∷ rs) = (r.pos ≡ pos) × (r.pos + r.len ≡ lo) × (rs ≡ [])

unfoldable pub IsMiddle : ℕ → ℕ → ℕ → List Region → Type 0
IsMiddle blocksize lo hi [] = lo ≡ hi
IsMiddle blocksize lo hi (r ∷ rs) =
    (r.bid * blocksize ≡ lo) × ((r.bid + r.count) * blocksize ≡ hi) × (0 < r.count) × (rs ≡ [])

pub record IsCut (blocksize : ℕ) (item : StaleData) (cut : Cut) : Type 0 where
  pub first : ℕ
  pub last : ℕ
  pub low : item.pos ≤ first
  pub mid : first ≤ last
  pub high : last ≤ item.pos + item.len
  pub front : IsFront item.pos first cut.front
  pub middle : IsMiddle blocksize first last cut.blocks
  pub rest : IsRest last (item.pos + item.len) cut.new_item

keep-IsCut : (blocksize : ℕ) (item : StaleData) → IsCut blocksize item (keep item)
unfolding keep IsFront IsMiddle IsRest
keep-IsCut blocksize item = record {
  first = item.pos + item.len;
  last = item.pos + item.len;
  low = omega arith;
  mid = omega arith;
  high = omega arith;
  front = (refl, refl, refl);
  middle = refl;
  rest = refl;
}

multiple : (blocksize q n : ℕ) → 0 < blocksize → n ≡ q * blocksize → n / blocksize * blocksize ≡ n
multiple blocksize q n h e =
    ap (λ t. t / blocksize * blocksize) e
    ∙ ap (λ t. t * blocksize) (mul-div_cancel q {n = blocksize} h)
    ∙ sym e

quotient_pos : (blocksize n : ℕ) → 0 < blocksize → blocksize ≤ n → 0 < n / blocksize
quotient_pos blocksize n h k =
    let parts = div-add-mod' n blocksize in
    let less = mod-lt n {m = blocksize} h in
    elim (Bool-cases (n / blocksize == 0)) [
      | inl t ↦
          (let z : n / blocksize * blocksize ≡ 0 * blocksize =
              ap (λ q. q * blocksize) (ground arith) in
            absurd (omega arith))
      | inr f ↦ ground arith
    ]

aligned :
    (blocksize : ℕ) (item : StaleData)
    → 0 < blocksize
    → ((item.pos + front_margin blocksize item) / blocksize) * blocksize
      ≡ item.pos + front_margin blocksize item
unfolding front_margin
aligned blocksize item h = elim (Bool-cases (item.pos % blocksize == 0)) [
  | inl t ↦
      (let parts = div-add-mod' item.pos blocksize in
        rw t (
          multiple blocksize (item.pos / blocksize) (item.pos + 0) h
            (omega (arith, (let z : item.pos % blocksize ≡ 0 = ground arith in z)))))
  | inr f ↦
      (let parts = div-add-mod' item.pos blocksize in
        let less = mod-lt item.pos {m = blocksize} h in
        rw f (
          multiple blocksize (item.pos / blocksize + 1)
            (item.pos + (blocksize - item.pos % blocksize)) h (omega arith)))
]

cut_blocks-IsCut :
    (blocksize : ℕ) (item : StaleData) (margin : ℕ)
    → 0 < blocksize
    → ((item.pos + margin) / blocksize) * blocksize ≡ item.pos + margin
    → margin ≤ item.len
    → blocksize ≤ item.len - margin
    → IsCut blocksize item (cut_blocks blocksize item margin)
unfolding cut_blocks IsFront IsMiddle IsRest
cut_blocks-IsCut blocksize item margin h e k l =
    let parts = div-add-mod' (item.len - margin) blocksize in
    let less = mod-lt (item.len - margin) {m = blocksize} h in
    record {
      first = item.pos + margin;
      last = ((item.pos + margin) / blocksize + (item.len - margin) / blocksize) * blocksize;
      low = omega arith;
      mid = omega arith;
      high = omega arith;
      front = elim (Bool-cases (margin == 0)) [
        | inl t ↦ rw t (ground arith)
        | inr f ↦ rw f (refl, refl, refl)
      ];
      middle = (e, refl, quotient_pos blocksize (item.len - margin) h l, refl);
      rest = elim (Bool-cases ((item.len - margin) % blocksize == 0)) [
        | inl t ↦ (let z : (item.len - margin) % blocksize ≡ 0 = ground arith in rw t (omega arith))
        | inr f ↦ rw f (refl, omega arith)
      ];
    }

pub cut_item-IsCut :
    (blocksize : ℕ) (item : StaleData)
    → 0 < blocksize
    → IsCut blocksize item (cut_item blocksize item)
unfolding cut_item
cut_item-IsCut blocksize item h = elim (Bool-cases (ltb item.len blocksize)) [
  | inl t ↦ rw t (keep-IsCut blocksize item)
  | inr f ↦ elim (Bool-cases (ltb (item.len - front_margin blocksize item) blocksize)) [
    | inl t ↦ rw (f, t) (keep-IsCut blocksize item)
    | inr g ↦
        rw (f, g)
          (cut_blocks-IsCut blocksize item (front_margin blocksize item) h
            (aligned blocksize item h) (ground arith) (ground arith))
  ]
]
