-- ===== src/Stale/Merge/Covers.antt =====
-- The regions of the tree stay in order and cover what they covered, and the new region.
use mathlib.Core.Option.{some-injective}
use native.Mathlib.Nat.{mod-le}
use forestdb.Stale.Merge.Tree.{
  NoRun, NoRun-less, within, covers, Ascends, covers-append, Between, found, Ascends-weaken,
  covers-parts, Between-below, Ascends-above, Ascends-append,
}
use forestdb.Stale.Merge.{
  StaleData, avl_search, below, above, choose, join, merge_prev, merge_next, insert_n_merge,
}
use forestdb.Common.{
  ℕ, List, Option, Bool, ◌≡◌, ◌∷◌, ◌≤◌, ◌||◌, leb, none, ◌+◌, some, [], Bool-cases, ◌==◌, arith,
  inl, refl, inr, sym, ap, ◌∙◌, subst, if◌then◌else◌, true, ◌%◌, ◌-◌, ◌<◌, ◌^◌, false,
}

-- The new region, with the one at its position, if any, covers both.
within-choose :
    (o : Option StaleData) (pos len x : ℕ)
    → ((r : StaleData) → o ≡ some r → r.pos ≡ pos)
    → within (choose o pos len) x ≡ found o x || within (record { pos = pos; len = len }) x
unfolding choose found
within-choose none pos len x h = refl
within-choose (some r) pos len x h = let at = h r refl in ground (arith, at)

pos-choose :
    (o : Option StaleData) (pos len : ℕ)
    → ((r : StaleData) → o ≡ some r → r.pos ≡ pos)
    → (choose o pos len).pos ≡ pos
unfolding choose
pos-choose none pos len h = refl
pos-choose (some r) pos len h = let at = h r refl in ground (arith, at)

avl_search-pos :
    (rs : List StaleData) (pos : ℕ) (r : StaleData) → avl_search rs pos ≡ some r → r.pos ≡ pos
unfolding avl_search
avl_search-pos [] pos r h = absurd (ground (arith, h))
avl_search-pos (q ∷ rs) pos r h = elim (Bool-cases (q.pos == pos)) [
  | inl same ↦
      (let it : q ≡ r =
          some-injective q r
            (subst (λ t. (if t then some q else avl_search rs pos) ≡ some r) same h) in
        ap (λ t. t.pos) (sym it) ∙ (let at : q.pos ≡ pos = ground arith in at))
  | inr other ↦
      avl_search-pos rs pos r
        (subst (λ t. (if t then some q else avl_search rs pos) ≡ some r) other h)
]

-- The wrap of the length only takes positions away.
within-join_only :
    (a b : StaleData) (x : ℕ)
    → a.pos ≤ b.pos
    → b.pos ≤ a.pos + a.len
    → within (join a b) x ≡ true
    → within a x || within b x ≡ true
unfolding join
within-join_only a b x h k e =
    let short = mod-le (a.len + (b.len + (b.pos - a.pos)) - a.len) (2 ^ 32) in
    ground (arith, short, e)

-- The sum does not wrap where no run of positions is that long.
join_fits :
    (a b : StaleData)
    → a.pos ≤ b.pos
    → b.pos ≤ a.pos + a.len
    → NoRun (λ x. within a x || within b x)
    → b.len + (b.pos - a.pos) < 2 ^ 32
unfolding NoRun
join_fits a b h k n = let (i, small, clear) = n a.pos in ground (arith, small, clear)

within-join :
    (a b : StaleData) (x : ℕ)
    → a.pos ≤ b.pos
    → b.pos ≤ a.pos + a.len
    → NoRun (λ y. within a y || within b y)
    → within (join a b) x ≡ within a x || within b x
unfolding join
within-join a b x h k n =
    let fits : (a.len + (b.len + (b.pos - a.pos)) - a.len) % 2 ^ 32 ≡ b.len + (b.pos - a.pos) =
      omega (arith, join_fits a b h k n) in
    rw fits (ground arith)

pos-join : (a b : StaleData) → (join a b).pos ≡ a.pos
unfolding join
pos-join a b = ground arith

covers-merge_prev :
    (lo : ℕ) (bs : List StaleData) (item : StaleData) (x : ℕ)
    → Between lo item.pos bs
    → NoRun (λ y. covers bs y || within item y)
    → covers (merge_prev bs item).0 x || within (merge_prev bs item).1 x
      ≡ covers bs x || within item x
unfolding covers merge_prev Between
covers-merge_prev lo [] item x b n = refl
covers-merge_prev lo (p ∷ []) item x (h, k, b) n =
    elim (Bool-cases (leb item.pos (p.pos + p.len))) [
      | inl t ↦
          (let less =
              NoRun-less (λ y. within p y || false || within item y)
                (λ y. within p y || within item y) (λ y e. ground (arith, e)) n in
            rw (t, within-join p item x (omega arith) (ground arith) less) (ground arith))
      | inr f ↦ rw f refl
    ]
covers-merge_prev lo (p ∷ q ∷ ps) item x (h, k, b) n =
    let less =
      NoRun-less (λ y. covers (p ∷ q ∷ ps) y || within item y)
        (λ y. covers (q ∷ ps) y || within item y) (λ y e. ground (arith, e)) n in
    let rest = covers-merge_prev (p.pos + 1) (q ∷ ps) item x b less in ground (arith, rest)

covers-merge_next :
    (item : StaleData) (ns : List StaleData) (x : ℕ)
    → Ascends item.pos ns
    → NoRun (λ y. within item y || covers ns y)
    → covers (merge_next item ns) x ≡ within item x || covers ns x
unfolding covers merge_next Ascends
covers-merge_next item [] x a run = refl
covers-merge_next item (n ∷ ns) x (h, a) run = elim (Bool-cases (leb n.pos (item.pos + item.len))) [
  | inl t ↦
      (let less =
          NoRun-less (λ y. within item y || covers (n ∷ ns) y) (λ y. within item y || within n y)
            (λ y e. ground (arith, e)) run in
        rw (t, within-join item n x (omega arith) (ground arith) less) (ground arith))
  | inr f ↦ rw f refl
]

-- With lengths that may wrap, nothing is covered that was not.
covers-merge_prev_only :
    (lo : ℕ) (bs : List StaleData) (item : StaleData) (x : ℕ)
    → Between lo item.pos bs
    → covers (merge_prev bs item).0 x || within (merge_prev bs item).1 x ≡ true
    → covers bs x || within item x ≡ true
unfolding covers merge_prev Between
covers-merge_prev_only lo [] item x b e = e
covers-merge_prev_only lo (p ∷ []) item x (h, k, b) e = one (leb item.pos (p.pos + p.len)) refl e
  where
    one :
        (c : Bool)
        → leb item.pos (p.pos + p.len) ≡ c
        → covers
              (if◌then◌else◌ {A = List StaleData × StaleData} c ([], join p item) (p ∷ [], item)).0
              x
            || within
                (if◌then◌else◌ {A = List StaleData × StaleData} c
                  ([], join p item)
                  (p ∷ [], item)).1
                x
          ≡ true
        → covers (p ∷ []) x || within item x ≡ true
    one true t e =
        let only = within-join_only p item x (omega arith) (ground (arith, t)) e in
        ground (arith, only)
    one false f e = e
covers-merge_prev_only lo (p ∷ q ∷ ps) item x (h, k, b) e =
    let rest = covers-merge_prev_only (p.pos + 1) (q ∷ ps) item x b in
    elim (Bool-cases (within p x)) [
      | inl t ↦ ground (arith, t)
      | inr f ↦ (let r = rest (ground (arith, e, f)) in ground (arith, r))
    ]

covers-merge_next_only :
    (item : StaleData) (ns : List StaleData) (x : ℕ)
    → Ascends item.pos ns
    → covers (merge_next item ns) x ≡ true
    → within item x || covers ns x ≡ true
unfolding covers merge_next Ascends
covers-merge_next_only item [] x a e = e
covers-merge_next_only item (n ∷ ns) x (h, a) e = one (leb n.pos (item.pos + item.len)) refl e
  where
    one :
        (c : Bool)
        → leb n.pos (item.pos + item.len) ≡ c
        → covers (if c then join item n ∷ ns else item ∷ n ∷ ns) x ≡ true
        → within item x || covers (n ∷ ns) x ≡ true
    one true t e = elim (Bool-cases (covers ns x)) [
      | inl c ↦ ground (arith, c)
      | inr c ↦
          (let only =
              within-join_only item n x (omega arith) (ground (arith, t)) (ground (arith, e, c)) in
            ground (arith, only))
    ]
    one false f e = e

-- Where the item stands after it was merged with the one before.
pos-merge_prev :
    (lo hi : ℕ) (bs : List StaleData) (item : StaleData)
    → item.pos ≡ hi
    → lo ≤ hi
    → Between lo hi bs
    → (lo ≤ (merge_prev bs item).1.pos)
      × ((merge_prev bs item).1.pos ≤ hi)
      × Between lo (merge_prev bs item).1.pos (merge_prev bs item).0
unfolding merge_prev Between
pos-merge_prev lo hi [] item e l b = (omega arith, omega arith, tt)
pos-merge_prev lo hi (p ∷ []) item e l (h, k, b) =
    elim (Bool-cases (leb item.pos (p.pos + p.len))) [
      | inl t ↦ rw (t, pos-join p item) (h, omega arith, tt)
      | inr f ↦ rw f (omega arith, omega arith, (h, omega arith, tt))
    ]
pos-merge_prev lo hi (p ∷ q ∷ ps) item e l (h, k, b) =
    let (low, high, rest) = pos-merge_prev (p.pos + 1) hi (q ∷ ps) item e (omega arith) b in
    (omega arith, high, (h, omega arith, rest))

Ascends-merge_next :
    (item : StaleData) (ns : List StaleData)
    → Ascends (item.pos + 1) ns
    → Ascends item.pos (merge_next item ns)
unfolding Ascends merge_next
Ascends-merge_next item [] a = (omega arith, tt)
Ascends-merge_next item (n ∷ ns) (h, a) = elim (Bool-cases (leb n.pos (item.pos + item.len))) [
  | inl t ↦
      rw (t, pos-join item n)
        (omega arith, Ascends-weaken (n.pos + 1) (item.pos + 1) ns (omega arith) a)
  | inr f ↦ rw f (omega arith, (h, a))
]

unions :
    (old before there after item new left merged behind : Bool)
    → old ≡ before || (there || after)
    → item ≡ there || new
    → left || merged ≡ before || item
    → behind ≡ merged || after
    → left || behind ≡ old || new
unions old before there after item new left merged behind h k l m = ground (arith, h, k, l, m)

unions_only :
    (old before there after item new left merged behind : Bool)
    → old ≡ before || (there || after)
    → item ≡ there || new
    → (left || merged ≡ true → before || item ≡ true)
    → (behind ≡ true → merged || after ≡ true)
    → left || behind ≡ true
    → old || new ≡ true
unions_only old before there after item new left merged true h k l m e = elim (Bool-cases merged) [
  | inl t ↦ (let b = l (ground (arith, t)) in ground (arith, h, k, b))
  | inr f ↦ (let a = m refl in ground (arith, h, a, f))
]
unions_only old before there after item new left merged false h k l m e =
    let b = l (ground (arith, e)) in ground (arith, h, k, b)

module _ (tree : List StaleData) (item_pos item_len : ℕ) (a : Ascends 0 tree) where
  abbrev item : StaleData
  item = choose (avl_search tree item_pos) item_pos item_len

  abbrev merged : List StaleData × StaleData
  merged = merge_prev (below tree item_pos) item

  abbrev new : StaleData
  new = record { pos = item_pos; len = item_len }

  at : item.pos ≡ item_pos
  at = pos-choose (avl_search tree item_pos) item_pos item_len (avl_search-pos tree item_pos)

  before : Between 0 item.pos (below tree item_pos)
  before = subst (λ t. Between 0 t (below tree item_pos)) (sym at) (Between-below 0 item_pos tree a)

  place : (0 ≤ merged.1.pos) × (merged.1.pos ≤ item_pos) × Between 0 merged.1.pos merged.0
  place =
      pos-merge_prev 0 item_pos (below tree item_pos) item at (omega arith)
        (Between-below 0 item_pos tree a)

  behind : Ascends (merged.1.pos + 1) (above tree item_pos)
  behind =
      let low = place.1 in
      Ascends-weaken (item_pos + 1) (merged.1.pos + 1) (above tree item_pos) (omega (arith, low))
        (Ascends-above 0 item_pos tree a)

  behind_item : Ascends merged.1.pos (above tree item_pos)
  behind_item =
      Ascends-weaken (merged.1.pos + 1) merged.1.pos (above tree item_pos) (omega arith) behind

  chosen : (x : ℕ) → within item x ≡ found (avl_search tree item_pos) x || within new x
  chosen x =
      within-choose (avl_search tree item_pos) item_pos item_len x (avl_search-pos tree item_pos)

  prev_only :
      (x : ℕ)
      → covers merged.0 x || within merged.1 x ≡ true
      → covers (below tree item_pos) x || within item x ≡ true
  prev_only x = covers-merge_prev_only 0 (below tree item_pos) item x before

  prev_run :
      NoRun (λ x. covers tree x || within new x)
      → NoRun (λ x. covers (below tree item_pos) x || within item x)
  prev_run = NoRun-less _ _ (λ x e.
      (let parts = covers-parts 0 item_pos tree x a in
        let c = chosen x in ground (arith, parts, c, e)))

  next_run :
      NoRun (λ x. covers tree x || within new x)
      → NoRun (λ x. within merged.1 x || covers (above tree item_pos) x)
  next_run = NoRun-less _ _ (λ x e.
      (let parts = covers-parts 0 item_pos tree x a in
        let c = chosen x in
        elim (Bool-cases (within merged.1 x)) [
          | inl t ↦ (let p = prev_only x (ground (arith, t)) in ground (arith, parts, c, p))
          | inr f ↦ ground (arith, parts, e, f)
        ]))

  ascends : Ascends 0 (insert_n_merge tree item_pos item_len)
  unfolding insert_n_merge
  ascends =
      Ascends-append 0 merged.1.pos merged.0 (merge_next merged.1 (above tree item_pos)) place.0
        place.2 (Ascends-merge_next merged.1 (above tree item_pos) behind)

  covers_only :
      (x : ℕ)
      → covers (insert_n_merge tree item_pos item_len) x ≡ true
      → covers tree x || within new x ≡ true
  unfolding insert_n_merge
  covers_only x e =
      unions_only _ _ _ _ _ _ _ _ _ (covers-parts 0 item_pos tree x a) (chosen x) (prev_only x)
        (covers-merge_next_only merged.1 (above tree item_pos) x behind_item)
        (sym (covers-append merged.0 (merge_next merged.1 (above tree item_pos)) x) ∙ e)

  covers_all :
      NoRun (λ x. covers tree x || within new x)
      → (x : ℕ) → covers (insert_n_merge tree item_pos item_len) x ≡ covers tree x || within new x
  unfolding insert_n_merge
  covers_all run x =
      covers-append merged.0 (merge_next merged.1 (above tree item_pos)) x
      ∙ unions _ _ _ _ _ _ _ _ _ (covers-parts 0 item_pos tree x a) (chosen x)
          (covers-merge_prev 0 (below tree item_pos) item x before (prev_run run))
          (covers-merge_next merged.1 (above tree item_pos) x behind_item (next_run run))

-- Whatever the lengths, the regions of the tree stay in order and cover nothing new but the region.
pub insert_n_merge-covers_only :
    (tree : List StaleData) (item_pos item_len : ℕ)
    → Ascends 0 tree
    → Ascends 0 (insert_n_merge tree item_pos item_len)
      × ((x : ℕ)
          → covers (insert_n_merge tree item_pos item_len) x ≡ true
          → covers tree x || within (record { pos = item_pos; len = item_len }) x ≡ true)
insert_n_merge-covers_only tree item_pos item_len a =
    (ascends tree item_pos item_len a, covers_only tree item_pos item_len a)

-- `_insert_n_merge` keeps the regions of the tree in order. Where the tree and the new region have no
-- run of 2^32 bytes behind each other, which is what a length of 32 bits can hold, they cover what
-- they covered before and the new region, no more and no less.
pub insert_n_merge-covers :
    (tree : List StaleData) (item_pos item_len : ℕ)
    → Ascends 0 tree
    → NoRun (λ x. covers tree x || within (record { pos = item_pos; len = item_len }) x)
    → Ascends 0 (insert_n_merge tree item_pos item_len)
      × ((x : ℕ)
          → covers (insert_n_merge tree item_pos item_len) x
            ≡ covers tree x || within (record { pos = item_pos; len = item_len }) x)
insert_n_merge-covers tree item_pos item_len a run =
    (ascends tree item_pos item_len a, covers_all tree item_pos item_len a run)
