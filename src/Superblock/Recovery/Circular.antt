-- ===== src/Superblock/Recovery/Circular.antt =====
-- What a later opening of the file finds after `sb_sync_circular`, whole or torn.
use forestdb.Superblock.State.{Superblock, Filemgr, Status, success}
use forestdb.Superblock.Format.{ReadsInside, stored_values, sb_init_new, sb_write, sb_read_given_no}
use forestdb.Superblock.Format.Fields.{AllSmall}
use forestdb.Superblock.Format.Restored.{restored}
use forestdb.Superblock.Format.RoundTrip.{sb_read_given_no-sb_write}
use forestdb.Superblock.Recovery.{
  is_success, revnum_limit, read_one, sb_read_latest, sb_sync_circular,
}
use forestdb.Superblock.Recovery.Latest.{
  Candidate, revnum_of, IsLatest, nothing, newest, sb_read_latest-IsLatest,
}
use native.Mathlib.Nat.{mod-lt}
use forestdb.Version.{ver_superblock_support}
use forestdb.Common.{
  ℕ, List, none, Bool, ◌≡◌, if◌then◌else◌, some, ◌==◌, ◌<◌, refl, Option, ◌≢◌, arith, ap, ◌%◌, ◌^◌,
  false, ◌-◌, ◌∙◌, true, ◌*◌, length, ◌+◌, add64, [], Bool-cases, inl, inr, sym,
}

-- The file as the next program that opens it finds it, with `torn` in block `k`.
unfoldable pub reopened : Filemgr → ℕ → List ℕ → Filemgr
reopened file k torn = record file { sb = none; disk = λ j. if j == k then torn else file.disk j }

module _ (get_checksum : List ℕ → ℕ → ℕ) where
  -- Reading looks at one block alone.
  reopened-read_one :
      (file : Filemgr) (k : ℕ) (torn : List ℕ) (n : ℕ) (got : ℕ → Bool) (i : ℕ)
      → i ≢ k
      → read_one get_checksum (reopened file k torn) n got i ≡ read_one get_checksum file n got i
  unfolding read_one sb_read_given_no reopened
  reopened-read_one file k torn n got i ne = let other : (i == k) ≡ false = ground arith in rw other

  limit_of_none : (o : Option Superblock) → o ≡ none → revnum_limit o ≡ 2 ^ 64 - 1
  unfolding revnum_limit
  limit_of_none none e = refl
  limit_of_none (some sb) e = absurd (ground arith)

  newest_of :
      (file : Filemgr) (n : ℕ) (got : ℕ → Bool) (i : ℕ) (r : Status × Filemgr)
      → IsLatest get_checksum file n got r
      → file.sb ≡ none
      → Candidate get_checksum file n got i
      → (ret : Superblock) × (r.0 ≡ success)
        × (r.1.sb ≡ some ret)
        × (revnum_of get_checksum file n got i < ret.revnum)
  newest_of file n got i r (nothing no_block) e c = absurd (no_block i c)
  newest_of file n got i r (newest j d above) e c =
      (_, refl, refl, omega (arith, d.older, above i c, limit_of_none file.sb e))

  reopened-Candidate :
      (file : Filemgr) (k : ℕ) (torn : List ℕ) (n : ℕ) (got : ℕ → Bool) (i : ℕ)
      → i ≢ k
      → Candidate get_checksum (record file { sb = none }) n got i
      → Candidate get_checksum (reopened file k torn) n got i
        × (revnum_of get_checksum (reopened file k torn) n got i
            ≡ revnum_of get_checksum file n got i)
  unfolding reopened read_one sb_read_given_no
  reopened-Candidate file k torn n got i ne c =
      let same = reopened-read_one file k torn n got i ne in
      (
        record {
          inside = c.inside;
          readable = ap (λ t. is_success (t.0)) same ∙ c.readable;
          older = omega (arith, ap (λ t. t.1.revnum) same, c.older);
        },
        ap (λ t. t.1.revnum) same,
      )

  -- Let a crash in the middle of `sb_sync_circular` leave anything in the block that it writes, as
  -- long as the numbers of offsets in it do not lead the reader, which does not check them, past the
  -- end of the block. When the file is opened again, every superblock in another block that was
  -- readable is still found, so `sb_read_latest` succeeds, and its next revision is past that
  -- superblock's.
  pub torn_sync-recovers :
      (file : Filemgr) (sb : Superblock) (torn : List ℕ) (got : ℕ → Bool) (i : ℕ)
      → ReadsInside file.blocksize torn
      → i ≢ sb.revnum % sb.num_sb
      → Candidate get_checksum (record file { sb = none }) sb.num_sb got i
      → (ret : Superblock) × ((sb_read_latest get_checksum
            (reopened file (sb.revnum % sb.num_sb) torn)
            sb.num_sb
            got).0
          ≡ success)
        × ((sb_read_latest get_checksum
              (reopened file (sb.revnum % sb.num_sb) torn)
              sb.num_sb
              got).1.sb
            ≡ some ret)
        × (revnum_of get_checksum file sb.num_sb got i < ret.revnum)
  unfolding reopened
  torn_sync-recovers file sb torn got i inside ne c =
      let k = sb.revnum % sb.num_sb in
      let after = reopened file k torn in
      let d = reopened-Candidate file k torn sb.num_sb got i ne c in
      let r =
        newest_of after sb.num_sb got i _ (sb_read_latest-IsLatest get_checksum after sb.num_sb got)
          refl (d.0) in
      (r.0, r.1, r.2, omega (arith, r.3, d.1))

  written_one :
      (file : Filemgr) (sb : Superblock) (got : ℕ → Bool)
      → ver_superblock_support file.version ≡ true
      → AllSmall (stored_values file.version sb)
      → 8 * length (stored_values file.version sb) + 4 < file.blocksize
      → ((l : List ℕ) (mode : ℕ) → get_checksum l mode < 2 ^ 32)
      → got (sb.revnum % sb.num_sb) ≡ true
      → read_one get_checksum
          (record ((sb_sync_circular get_checksum file sb true).1) { sb = none })
          sb.num_sb
          got
          (sb.revnum % sb.num_sb)
        ≡ (success, restored (sb_init_new sb.num_sb) sb)
  unfolding read_one sb_sync_circular sb_read_given_no
  written_one file sb got support small room sums whole = rw whole (
      sb_read_given_no-sb_write get_checksum file sb (sb_init_new sb.num_sb) (sb.revnum % sb.num_sb)
        support small room sums)

  newest_written :
      (file : Filemgr) (n : ℕ) (got : ℕ → Bool) (k : ℕ) (w : Superblock) (r : Status × Filemgr)
      → IsLatest get_checksum file n got r
      → read_one get_checksum file n got k ≡ (success, w)
      → Candidate get_checksum file n got k
      → ((i : ℕ)
          → i ≢ k
          → Candidate get_checksum file n got i
          → revnum_of get_checksum file n got i < w.revnum)
      → r.1.sb ≡ some (record w { revnum = add64 w.revnum 1; bmp_idx = [] })
  newest_written file n got k w r (nothing no_block) e c below = absurd (no_block k c)
  newest_written file n got k w r (newest j d above) e c below = elim (Bool-cases (j == k)) [
    | inl same ↦
        (let at : j ≡ k = ground arith in
          rw at (ap (λ t. some (record (t.1) { revnum = add64 t.1.revnum 1; bmp_idx = [] })) e))
    | inr other ↦
        absurd (omega (arith, below j (λ at. ground arith) d, above k c, ap (λ t. t.1.revnum) e))
  ]

  synced-read_one :
      (file : Filemgr) (sb : Superblock) (got : ℕ → Bool) (i : ℕ)
      → i ≢ sb.revnum % sb.num_sb
      → read_one get_checksum
          (record ((sb_sync_circular get_checksum file sb true).1) { sb = none })
          sb.num_sb
          got
          i
        ≡ read_one get_checksum file sb.num_sb got i
  unfolding read_one sb_sync_circular sb_read_given_no sb_write
  synced-read_one file sb got i ne =
      let other : (i == sb.revnum % sb.num_sb) ≡ false = ground arith in rw other

  -- In a file of a version with superblocks, let the stored values fit 64 bits and the block, and
  -- the checksum 32 bits. If `sb_sync_circular` writes its block whole, that block is read whole
  -- again, every other readable superblock is older, and the revision is below 2^64 - 1, then
  -- opening the file gives the superblock that was written, ready for the next revision.
  pub sb_read_latest-sb_sync_circular :
      (file : Filemgr) (sb : Superblock) (got : ℕ → Bool)
      → ver_superblock_support file.version ≡ true
      → AllSmall (stored_values file.version sb)
      → 8 * length (stored_values file.version sb) + 4 < file.blocksize
      → ((l : List ℕ) (mode : ℕ) → get_checksum l mode < 2 ^ 32)
      → got (sb.revnum % sb.num_sb) ≡ true
      → 0 < sb.num_sb
      → sb.revnum < 2 ^ 64 - 1
      → ((i : ℕ)
          → i ≢ sb.revnum % sb.num_sb
          → Candidate get_checksum (record file { sb = none }) sb.num_sb got i
          → revnum_of get_checksum file sb.num_sb got i < sb.revnum)
      → (sb_read_latest get_checksum
          (record ((sb_sync_circular get_checksum file sb true).1) { sb = none })
          sb.num_sb
          got).1.sb
        ≡ some (record (restored (sb_init_new sb.num_sb) sb) {
          revnum = add64 sb.revnum 1;
          bmp_idx = [];
        })
  unfolding restored read_one sb_read_given_no
  sb_read_latest-sb_sync_circular file sb got support small room sums whole pos below older =
      let k = sb.revnum % sb.num_sb in
      let after = record ((sb_sync_circular get_checksum file sb true).1) { sb = none } in
      let w = restored (sb_init_new sb.num_sb) sb in
      let read = written_one file sb got support small room sums whole in
      newest_written after sb.num_sb got k w _
        (sb_read_latest-IsLatest get_checksum after sb.num_sb got) read
        (record {
          inside = mod-lt sb.revnum pos;
          readable = ap (λ t. is_success (t.0)) read;
          older = omega (arith, ap (λ t. t.1.revnum) read, limit_of_none none refl);
        })
        (λ i ne c.
          (let same = synced-read_one file sb got i ne in
            omega (
              arith,
              ap (λ t. t.1.revnum) same,
              older i ne (record {
                inside = c.inside;
                readable = ap (λ t. is_success (t.0)) (sym same) ∙ c.readable;
                older = omega (arith, ap (λ t. t.1.revnum) same, c.older);
              }),
            )))
