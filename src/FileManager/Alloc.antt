-- ===== src/FileManager/Alloc.antt =====
-- `filemgr_alloc` against the lists of free blocks.
use forestdb.Superblock.State.{Superblock, Filemgr}
use forestdb.Superblock.Alloc.{sb_alloc_block}
use forestdb.Superblock.Alloc.Spec.{IsValid, Pools, pools, alloc_from}
use forestdb.Superblock.Alloc.Take.{sb_alloc_block-Implements}
use forestdb.FileManager.{is_normal, reuse_block, touch, filemgr_alloc}
use forestdb.Common.{
  ap, ap₂, ◌∙◌, ℕ, Bool, true, false, some, if◌then◌else◌, ◌≡◌, ◌==◌, ◌/◌, add64, blk_not_found,
  refl, Bool-cases, inl, inr, subst,
}

-- What `filemgr_alloc` returns and leaves, when the lists say `spec`.
pub record IsAllocated (file : Filemgr) (spec : ℕ × Pools) (bid : ℕ) (out : Filemgr) : Type 0 where
  pub after : Superblock
  pub kept : out.sb ≡ some after
  pub lists : pools after ≡ spec.1
  pub valid : IsValid after
  pub ret : bid ≡ (if spec.0 == blk_not_found then file.pos / file.blocksize else spec.0)
  pub grown :
      out.pos ≡ (if spec.0 == blk_not_found then add64 file.pos file.blocksize else file.pos)

touch_same :
    (no_cache : Bool) (file : Filemgr) (bid : ℕ)
    → ((touch no_cache file bid).sb ≡ file.sb) × ((touch no_cache file bid).pos ≡ file.pos)
unfolding touch
touch_same true file bid = (refl, refl)
touch_same false file bid = (refl, refl)

taken_or_grown :
    (no_cache : Bool) (file : Filemgr) (w : Superblock) (bid : ℕ)
    → IsValid w
    → IsAllocated file
        (bid, pools w)
        (if bid == blk_not_found then file.pos / file.blocksize else bid)
        (touch no_cache
          (if bid == blk_not_found
            then record file { sb = some w; pos = add64 file.pos file.blocksize }
            else record file { sb = some w })
          (if bid == blk_not_found then file.pos / file.blocksize else bid))
taken_or_grown no_cache file w bid v = elim (Bool-cases (bid == blk_not_found)) [
  | inl e ↦
      let t =
        touch_same no_cache (record file { sb = some w; pos = add64 file.pos file.blocksize })
          (file.pos / file.blocksize) in
      record {
        after = w;
        kept = rw e (t.0);
        lists = refl;
        valid = v;
        ret = refl;
        grown = rw e (t.1);
      }
  | inr e ↦
      let t = touch_same no_cache (record file { sb = some w }) bid in
      record {
        after = w;
        kept = rw e (t.0);
        lists = refl;
        valid = v;
        ret = refl;
        grown = rw e (t.1);
      }
]

reuse_block_lem :
    (file : Filemgr) (sb : Superblock)
    → file.sb ≡ some sb
    → is_normal file.status ≡ true
    → reuse_block file file.sb ≡ (
      (sb_alloc_block sb).ret,
      record file { sb = some (sb_alloc_block sb).sb },
      (sb_alloc_block sb).calls,
    )
unfolding reuse_block
reuse_block_lem file sb e normal = ap (reuse_block file) e ∙ rw normal refl

-- In a file that is not being compacted and has a valid superblock, `filemgr_alloc` takes the block
-- that the lists of free blocks give, and only if they give none it takes the block at the end of
-- the file, which grows by one block.
pub filemgr_alloc-IsAllocated :
    (no_cache : Bool) (file : Filemgr) (sb : Superblock)
    → file.sb ≡ some sb
    → is_normal file.status ≡ true
    → IsValid sb
    → IsAllocated file
        (alloc_from (pools sb).current (pools sb).reserve)
        (filemgr_alloc no_cache file).0
        (filemgr_alloc no_cache file).1
unfolding filemgr_alloc
filemgr_alloc-IsAllocated no_cache file sb e normal v =
    let a = sb_alloc_block-Implements sb v in
    let spec : ((sb_alloc_block sb).ret, pools (sb_alloc_block sb).sb)
        ≡ alloc_from (pools sb).current (pools sb).reserve =
      ap₂ (λ x y. (x, y)) a.ret a.lists in
    subst (λ t. IsAllocated file t (filemgr_alloc no_cache file).0 (filemgr_alloc no_cache file).1)
      spec
      (rw (filemgr_alloc, reuse_block_lem file sb e normal)
        (taken_or_grown no_cache file (sb_alloc_block sb).sb (sb_alloc_block sb).ret a.valid))
