-- ===== src/Stale/Tests.antt =====
-- The theorems on stale regions, with blocks of 100 bytes.
use forestdb.Stale.Merge.{
  StaleData, insert_n_merge, merge_stale_list, avl_search, below, above, choose, join, merge_prev,
  merge_next,
}
use forestdb.Stale.Merge.Tree.{within, covers, Ascends, NoRun, NoRun-below}
use forestdb.Stale.Merge.Covers.{insert_n_merge-covers}
use forestdb.Superblock.State.{Superblock, sync}
use forestdb.Superblock.Format.{sb_init_new}
use forestdb.Superblock.Reclaim.{StaleHeader, returns, sb_reclaim_reusable_blocks}
use forestdb.Superblock.Alloc.Spec.{pools, IsValid}
use forestdb.Stale.Reuse.Reclaim.{Inside, AllStale, sb_reclaim-reusable_blocks}
use forestdb.Stale.Reuse.{reusable_blocks, cut_loop, cut_step, cut_item, cut_blocks, front_margin}
use forestdb.Stale.Reuse.Parts.{in_blocks}
use forestdb.Stale.Reuse.Bytes.{Disjoint}
use forestdb.Stale.Reuse.Loop.{IsDivided, reusable_blocks-IsDivided}
use forestdb.Stale.Reuse.Safety.{reusable_blocks-stale}
use forestdb.Common.{arith, ◌||◌, ◌≡◌, List, ◌∷◌, ℕ, [], true, refl, ◌/◌, ◌*◌}
use Prim.Native.Nat.{ℕ}

abbrev region : ℕ → ℕ → StaleData
region pos len = record { pos = pos; len = len }

abbrev tree : List StaleData
tree = region 50 100 ∷ region 260 270 ∷ []

tree-Ascends : Ascends 0 tree
unfolding Ascends
tree-Ascends = (omega arith, (omega arith, tt))

tree-Disjoint : Disjoint 0 tree
unfolding Disjoint
tree-Disjoint = (omega arith, (omega arith, tt))

tree-NoRun : NoRun (λ x. covers tree x || within (region 140 130) x)
tree-NoRun = NoRun-below _ 600 (omega arith) (λ x h. (unfold covers in ground (arith, h)))

insert_n_merge-covers_example :
    Ascends 0 (insert_n_merge tree 140 130)
    × ((x : ℕ)
        → covers (insert_n_merge tree 140 130) x ≡ covers tree x || within (region 140 130) x)
insert_n_merge-covers_example = insert_n_merge-covers tree 140 130 tree-Ascends tree-NoRun

-- All three become one region.
merges_all : insert_n_merge tree 140 130 ≡ region 50 480 ∷ []
unfolding insert_n_merge avl_search below above choose join merge_prev merge_next
merges_all = refl

-- Of the regions that follow, only the first one is looked at, and the other one overlaps.
leaves_overlap :
    insert_n_merge (region 10 5 ∷ region 20 5 ∷ []) 0 30 ≡ region 0 30 ∷ region 20 5 ∷ []
unfolding insert_n_merge avl_search below above choose join merge_prev merge_next
leaves_overlap = refl

reusable_blocks-IsDivided_example : IsDivided 100 tree (reusable_blocks 100 tree)
reusable_blocks-IsDivided_example = reusable_blocks-IsDivided 100 tree (omega arith) tree-Disjoint

cuts :
    reusable_blocks 100 tree
    ≡ (record { bid = 3; count = 2 } ∷ [], region 50 100 ∷ region 260 40 ∷ region 500 30 ∷ [])
unfolding reusable_blocks cut_loop cut_step cut_item cut_blocks front_margin
cuts = refl

handed_out :
    in_blocks 100 (reusable_blocks 100 (merge_stale_list tree (region 140 130 ∷ []))).0 300 ≡ true
unfolding in_blocks reusable_blocks cut_loop cut_step cut_item cut_blocks front_margin
    merge_stale_list insert_n_merge avl_search below above choose join merge_prev merge_next
handed_out = refl

reusable_blocks-stale_example : covers tree 300 || covers (region 140 130 ∷ []) 300 ≡ true
reusable_blocks-stale_example =
    reusable_blocks-stale 100 tree (region 140 130 ∷ []) 300 (omega arith) tree-Ascends handed_out

-- In a file of 512 blocks of 4096 bytes.
abbrev long_region : List StaleData
long_region = region 40_000 20_000 ∷ []

long_region-Disjoint : Disjoint 0 long_region
unfolding Disjoint
long_region-Disjoint = (omega arith, tt)

long_region-Inside : Inside (2_097_152 / 4096 * 4096) long_region
unfolding Inside
long_region-Inside = (omega arith, tt)

abbrev fresh : Superblock
unfolding sb_init_new
fresh = sb_init_new 4

abbrev old_header : StaleHeader
old_header = record { revnum = 6; bid = 12 }

cuts_four :
    reusable_blocks 4096 long_region
    ≡ (record { bid = 10; count = 4 } ∷ [], region 40_000 960 ∷ region 57_344 2656 ∷ [])
unfolding reusable_blocks cut_loop cut_step cut_item cut_blocks front_margin
cuts_four = refl

sb_reclaim-reusable_blocks_example :
    (after : Superblock) × (sb_reclaim_reusable_blocks fresh 2_097_152 4096 old_header
        (reusable_blocks 4096 long_region).0
      ≡ returns true after (sync ∷ []))
    × AllStale 4096 long_region (pools after).current
    × IsValid after
unfolding sb_init_new
sb_reclaim-reusable_blocks_example =
    sb_reclaim-reusable_blocks fresh 2_097_152 4096 old_header long_region
      (record { bid = 10; count = 4 }) [] (region 40_000 960 ∷ region 57_344 2656 ∷ []) cuts_four
      (omega arith) long_region-Disjoint long_region-Inside refl refl (omega arith) (omega arith)
      (omega arith) tt
