-- ===== src/Stale/Reuse/Safety.antt =====
-- No byte becomes reusable that was not stale.
use forestdb.Stale.Merge.{StaleData, insert_n_merge, merge_stale_list}
use forestdb.Stale.Merge.Tree.{within, covers, Ascends}
use forestdb.Stale.Merge.Covers.{insert_n_merge-covers_only}
use forestdb.Stale.Reuse.{Cut, cut_item, cut_step, cut_loop, reusable_blocks, ℕ, List}
use forestdb.Stale.Reuse.Parts.{in_blocks, cut_item-IsCut}
use forestdb.Stale.Reuse.Bytes.{in_blocks-middle, in_blocks-append}
use forestdb.Common.{
  ℕ, List, ◌≡◌, ◌<◌, Option, ◌||◌, true, arith, some, Bool-cases, ◌∷◌, ltb, none, [], inl, inr,
  Bool, if◌then◌else◌, false,
}

in_blocks-cut_item :
    (blocksize : ℕ) (item : StaleData) (x : ℕ)
    → 0 < blocksize
    → in_blocks blocksize (cut_item blocksize item).blocks x ≡ true
    → within item x ≡ true
in_blocks-cut_item blocksize item x h k =
    let c = cut_item-IsCut blocksize item h in
    let m =
      in_blocks-middle blocksize c.first c.last x (cut_item blocksize item).blocks c.mid c.middle in
    ground (arith, m, k, c.low, c.high)

taken :
    (blocksize : ℕ) (before : Bool) (cut : Cut) (item r : StaleData) (x : ℕ)
    → in_blocks blocksize
        (if before
          then record { blocks = []; front = item ∷ []; new_item = some r }
          else record cut { front = r ∷ cut.front }).blocks
        x
      ≡ true
    → in_blocks blocksize cut.blocks x ≡ true
unfolding in_blocks
taken blocksize true cut item r x k = absurd (ground (arith, k))
taken blocksize false cut item r x k = k

in_blocks-cut_step :
    (blocksize : ℕ) (waiting : Option StaleData) (item : StaleData) (x : ℕ)
    → 0 < blocksize
    → in_blocks blocksize (cut_step blocksize waiting item).blocks x ≡ true
    → within item x ≡ true
unfolding cut_step
in_blocks-cut_step blocksize none item x h k = in_blocks-cut_item blocksize item x h k
in_blocks-cut_step blocksize (some r) item x h k =
    in_blocks-cut_item blocksize item x h
      (taken blocksize (ltb item.pos r.pos) (cut_item blocksize item) item r x k)

pub in_blocks-cut_loop :
    (blocksize : ℕ) (waiting : Option StaleData) (items : List StaleData) (x : ℕ)
    → 0 < blocksize
    → in_blocks blocksize (cut_loop blocksize waiting items).0 x ≡ true
    → covers items x ≡ true
unfolding cut_loop covers in_blocks
in_blocks-cut_loop blocksize none [] x h k = k
in_blocks-cut_loop blocksize (some r) [] x h k = k
in_blocks-cut_loop blocksize waiting (item ∷ items) x h k =
    (let cut = cut_step blocksize waiting item in
      let split =
        in_blocks-append blocksize cut.blocks (cut_loop blocksize cut.new_item items).0 x in
      elim (Bool-cases (in_blocks blocksize cut.blocks x)) [
        | inl t ↦
            (let here = in_blocks-cut_step blocksize waiting item x h t in ground (arith, here))
        | inr f ↦
            (let behind =
                in_blocks-cut_loop blocksize cut.new_item items x h (ground (arith, split, k, f)) in
              ground (arith, behind))
      ])

merge_stale_list-covers :
    (tree items : List StaleData)
    → Ascends 0 tree
    → Ascends 0 (merge_stale_list tree items)
      × ((x : ℕ)
          → covers (merge_stale_list tree items) x ≡ true
          → covers tree x || covers items x ≡ true)
unfolding merge_stale_list covers
merge_stale_list-covers tree [] a = (a, λ x e. ground (arith, e))
merge_stale_list-covers tree (item ∷ items) a =
    let (order, all) = insert_n_merge-covers_only tree item.pos item.len a in
    let (order', all') =
      merge_stale_list-covers (insert_n_merge tree item.pos item.len) items order in
    (
      order',
      λ x e. elim (Bool-cases (covers (insert_n_merge tree item.pos item.len) x)) [
        | inl t ↦ (let p = all x t in ground (arith, p))
        | inr f ↦ (let q = all' x e in ground (arith, q, f))
      ],
    )

-- Whatever regions the stale list holds, after they were merged into the tree every byte of the
-- blocks that are handed out lies in a region of the tree before or of the stale list.
pub reusable_blocks-stale :
    (blocksize : ℕ) (mergetree stale_list : List StaleData) (x : ℕ)
    → 0 < blocksize
    → Ascends 0 mergetree
    → in_blocks blocksize (reusable_blocks blocksize (merge_stale_list mergetree stale_list)).0 x
      ≡ true
    → covers mergetree x || covers stale_list x ≡ true
unfolding reusable_blocks
reusable_blocks-stale blocksize mergetree stale_list x h a k =
    let (order, all) = merge_stale_list-covers mergetree stale_list a in
    all x (in_blocks-cut_loop blocksize none (merge_stale_list mergetree stale_list) x h k)
