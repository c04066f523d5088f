-- ===== src/Stale/Reuse/Loop.antt =====
-- The loop over the merge tree divides what the tree covers among the blocks and the tree that is
-- left.
use forestdb.Stale.Merge.{StaleData}
use forestdb.Stale.Merge.Tree.{covers, covers-append}
use forestdb.Stale.Reuse.{ℕ, List, Cut, cut_loop, cut_step, cut_item, reusable_blocks}
use forestdb.Stale.Reuse.Parts.{in_blocks, waits, IsRest, IsFront, IsMiddle, IsCut, cut_item-IsCut}
use forestdb.Stale.Reuse.Bytes.{
  Disjoint, covers-from, covers-front, in_blocks-middle, waits-rest, in_blocks-append,
}
use forestdb.Superblock.Reclaim.{Region}
use forestdb.Common.{
  ℕ, List, ◌∷◌, ◌≤◌, ◌++◌, Option, ◌≡◌, ◌<◌, some, ◌||◌, ◌+◌, true, none, [], ◌&&◌, arith, ltb,
  false, Bool-cases, refl, inl, inr, subst, sym, ltb→lt,
}

-- A new item, if any, from `lo` on and ending before `hi`.
Waiting : ℕ → ℕ → Option StaleData → Type 0
Waiting lo hi none = lo ≤ hi
Waiting lo hi (some r) = (lo ≤ r.pos) × (r.pos + r.len ≤ hi)

-- A whole block at least.
unfoldable pub NonEmpty : List Region → Type 0
NonEmpty [] = Unit
NonEmpty (r ∷ rs) = (0 < r.count) × NonEmpty rs

-- What the loop leaves of a new item that waits and of the items behind it.
record Divides (blocksize lo : ℕ) (waiting : Option StaleData) (items : List StaleData)
    (out : List Region × List StaleData) : Type 0 where
  all :
      (x : ℕ) → (waits waiting x || covers items x) ≡ in_blocks blocksize out.0 x || covers out.1 x
  apart : (x : ℕ) → (in_blocks blocksize out.0 x && covers out.1 x) ≡ false
  order : Disjoint lo out.1
  whole : NonEmpty out.0

waits-from : (lo hi x : ℕ) (o : Option StaleData) → Waiting lo hi o → waits o x ≡ true → lo ≤ x
unfolding waits Waiting
waits-from lo hi x none w h = absurd (ground (arith, h))
waits-from lo hi x (some r) (p, q) h = ground (arith, h)

IsRest-Waiting : (lo hi : ℕ) (o : Option StaleData) → IsRest lo hi o → Waiting lo hi o
unfolding IsRest Waiting
IsRest-Waiting lo hi none e = omega arith
IsRest-Waiting lo hi (some r) (p, q) = (omega arith, omega arith)

Disjoint-front :
    (lo pos first : ℕ) (front rs : List StaleData)
    → lo ≤ pos
    → pos ≤ first
    → IsFront pos first front
    → Disjoint first rs
    → Disjoint lo (front ++ rs)
unfolding Disjoint IsFront
Disjoint-front lo pos first [] [] h k e d = tt
Disjoint-front lo pos first [] (q ∷ rs) h k e (p, d) = (omega arith, d)
Disjoint-front lo pos first (r ∷ qs) rs h k (p, q, e) d =
    rw e (omega arith, subst (λ t. Disjoint t rs) (sym q) d)

Disjoint-weaken : (lo lo' : ℕ) (rs : List StaleData) → lo' ≤ lo → Disjoint lo rs → Disjoint lo' rs
unfolding Disjoint
Disjoint-weaken lo lo' [] h d = tt
Disjoint-weaken lo lo' (r ∷ rs) h (p, d) = (omega arith, d)

NonEmpty-append :
    (blocksize lo hi : ℕ) (bs rs : List Region)
    → IsMiddle blocksize lo hi bs
    → NonEmpty rs
    → NonEmpty (bs ++ rs)
unfolding NonEmpty IsMiddle
NonEmpty-append blocksize lo hi [] rs e n = n
NonEmpty-append blocksize lo hi (b ∷ bs) rs (p, q, c, e) n = rw e (c, n)

module _ (blocksize : ℕ) (item : StaleData) (items : List StaleData) (cut : Cut)
    (c : IsCut blocksize item cut) (behind : Disjoint (item.pos + item.len) items)
    (out : List Region × List StaleData)
    (rest : Divides blocksize c.last cut.new_item items out) where
  later : (x : ℕ) → (waits cut.new_item x || covers items x) ≡ true → c.last ≤ x
  later x h = elim (Bool-cases (waits cut.new_item x)) [
    | inl t ↦
        waits-from c.last (item.pos + item.len) x cut.new_item
          (IsRest-Waiting c.last (item.pos + item.len) cut.new_item c.rest) t
    | inr f ↦
        (let more = covers-from (item.pos + item.len) x items behind (ground (arith, h, f)) in
          omega (arith, c.high))
  ]

  none_before : (x : ℕ) → ltb x c.last ≡ true → (waits cut.new_item x || covers items x) ≡ false
  none_before x h = elim (Bool-cases (waits cut.new_item x || covers items x)) [
    | inl t ↦ absurd (omega (arith, ltb→lt x c.last h, later x t))
    | inr f ↦ f
  ]

  cut-Divides :
      (lo : ℕ)
      → lo ≤ item.pos
      → Divides blocksize lo none (item ∷ items) (cut.blocks ++ out.0, cut.front ++ out.1)
  unfolding covers waits
  cut-Divides lo h = record {
    all = λ x.
        (let f = covers-front item.pos c.first x cut.front c.low c.front in
          let m = in_blocks-middle blocksize c.first c.last x cut.blocks c.mid c.middle in
          let n = waits-rest c.last (item.pos + item.len) x cut.new_item c.high c.rest in
          let a = rest.all x in
          rw (in_blocks-append blocksize cut.blocks out.0 x, covers-append cut.front out.1 x)
            (ground (arith, f, m, n, a, c.low, c.mid, c.high)));
    apart = λ x.
        (let f = covers-front item.pos c.first x cut.front c.low c.front in
          let m = in_blocks-middle blocksize c.first c.last x cut.blocks c.mid c.middle in
          let a = rest.all x in
          let b = rest.apart x in
          rw (in_blocks-append blocksize cut.blocks out.0 x, covers-append cut.front out.1 x)
            (elim (Bool-cases (ltb x c.last)) [
              | inl t ↦ (let z = none_before x t in ground (arith, f, m, a, b, z))
              | inr u ↦ ground (arith, f, m, a, b, u, c.mid)
            ]));
    order =
        Disjoint-front lo item.pos c.first cut.front out.1 h c.low c.front
          (Disjoint-weaken c.last c.first out.1 c.mid rest.order);
    whole = NonEmpty-append blocksize c.first c.last cut.blocks out.0 c.middle rest.whole;
  }

-- A new item before the items is kept in its place.
keep-Divides :
    (blocksize lo : ℕ) (new_item : StaleData) (items : List StaleData)
    (out : List Region × List StaleData)
    → lo ≤ new_item.pos
    → Disjoint (new_item.pos + new_item.len) items
    → Divides blocksize (new_item.pos + new_item.len) none items out
    → Divides blocksize lo (some new_item) items (out.0, new_item ∷ out.1)
unfolding covers waits Disjoint
keep-Divides blocksize lo new_item items out h behind d = record {
  all = λ x. (let a = d.all x in ground (arith, a));
  apart = λ x.
      (let a = d.all x in
        let b = d.apart x in
        elim (Bool-cases (in_blocks blocksize out.0 x)) [
          | inl t ↦
              (let from =
                  covers-from (new_item.pos + new_item.len) x items behind (ground (arith, a, t)) in
                ground (arith, b, from))
          | inr f ↦ ground (arith, f)
        ]);
  order = (h, d.order);
  whole = d.whole;
}

cut_loop-Divides :
    (blocksize lo hi : ℕ) (waiting : Option StaleData) (items : List StaleData)
    → 0 < blocksize
    → Waiting lo hi waiting
    → Disjoint hi items
    → Divides blocksize lo waiting items (cut_loop blocksize waiting items)
unfolding cut_loop cut_step Waiting Disjoint covers in_blocks waits NonEmpty
cut_loop-Divides blocksize lo hi none [] h w d = record {
  all = λ x. refl;
  apart = λ x. refl;
  order = tt;
  whole = tt;
}
cut_loop-Divides blocksize lo hi (some new_item) [] h (p, q) d = record {
  all = λ x. ground arith;
  apart = λ x. refl;
  order = (p, tt);
  whole = tt;
}
cut_loop-Divides blocksize lo hi none (item ∷ items) h w (p, d) =
    let cut = cut_item blocksize item in
    let c = cut_item-IsCut blocksize item h in
    cut-Divides blocksize item items cut c d (cut_loop blocksize cut.new_item items)
      (cut_loop-Divides blocksize c.last (item.pos + item.len) cut.new_item items h
        (IsRest-Waiting c.last (item.pos + item.len) cut.new_item c.rest) d)
      lo (omega arith)
cut_loop-Divides blocksize lo hi (some new_item) (item ∷ items) h (l, k) (p, d) =
    let cut = cut_item blocksize item in
    let c = cut_item-IsCut blocksize item h in
    let before : ltb item.pos new_item.pos ≡ false = ground arith in
    rw before (
      keep-Divides blocksize lo new_item (item ∷ items)
        (
          cut.blocks ++ (cut_loop blocksize cut.new_item items).0,
          cut.front ++ (cut_loop blocksize cut.new_item items).1,
        )
        l (omega arith, d)
        (cut-Divides blocksize item items cut c d (cut_loop blocksize cut.new_item items)
          (cut_loop-Divides blocksize c.last (item.pos + item.len) cut.new_item items h
            (IsRest-Waiting c.last (item.pos + item.len) cut.new_item c.rest) d)
          (new_item.pos + new_item.len) (omega arith)))

-- The blocks and the tree that is left, against the tree before.
pub record IsDivided (blocksize : ℕ) (mergetree : List StaleData)
    (out : List Region × List StaleData) : Type 0 where
  pub all : (x : ℕ) → covers mergetree x ≡ in_blocks blocksize out.0 x || covers out.1 x
  pub apart : (x : ℕ) → (in_blocks blocksize out.0 x && covers out.1 x) ≡ false
  pub order : Disjoint 0 out.1
  pub whole : NonEmpty out.0

-- If the regions of the merge tree are in order and do not overlap, each byte of them is in one of
-- the blocks that are handed out or stays in the tree, never both; the tree that is left is in order
-- without overlaps again, and no block list is empty.
pub reusable_blocks-IsDivided :
    (blocksize : ℕ) (mergetree : List StaleData)
    → 0 < blocksize
    → Disjoint 0 mergetree
    → IsDivided blocksize mergetree (reusable_blocks blocksize mergetree)
unfolding reusable_blocks waits
reusable_blocks-IsDivided blocksize mergetree h d =
    let out = cut_loop-Divides blocksize 0 0 none mergetree h (unfold Waiting in omega arith) d in
    record {
      all = λ x. (let a = out.all x in ground (arith, a));
      apart = out.apart;
      order = out.order;
      whole = out.whole;
    }
