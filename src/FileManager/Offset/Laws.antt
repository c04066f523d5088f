-- ===== src/FileManager/Offset/Laws.antt =====
-- What documents rely on holds of the functions of src/filemgr.cc, with the block cache disabled.
use forestdb.Common.Bytes.{slice, from_be}
use forestdb.FileManager.{filemgr_alloc, filemgr_alloc_multiple}
use forestdb.FileManager.Interface.{FileOps, IsLawful, IsReadable}
use forestdb.FileManager.Stale.{docblk_meta_size, filemgr_mark_stale}
use forestdb.FileManager.Offset.{
  blk_marker_bnode, filemgr_is_writable, may_write, filemgr_alloc_multiple_cond, sealed,
  filemgr_write_offset, filemgr_crc32_check, checked, filemgr_read,
}
use forestdb.Stale.Merge.{StaleData}
use forestdb.Superblock.State.{Superblock, Filemgr}
use forestdb.Common.{
  ℕ, List, Bool, Option, if◌then◌else◌, leb, ltb, ◌==◌, ◌+◌, ◌-◌, ◌*◌, ◌≤◌, ◌<◌, ◌≡◌, ◌≢◌, ◌&&◌,
  get_or, length, true, false, none, some, Bool-cases, inl, inr, ◌∙◌, sym, refl, arith, subst,
}

-- What `pwrite` and `pread` of the operating system promise, for the blocks of a file.
pub record IsPosix (blocksize : ℕ) (pread : (ℕ → List ℕ) → ℕ → Option (List ℕ))
    (pwrite : (ℕ → List ℕ) → ℕ → ℕ → List ℕ → Bool × (ℕ → List ℕ)) : Type 0 where
  pub byte-pwrite :
      (disk : ℕ → List ℕ) (bid pos : ℕ) (bytes : List ℕ)
      → pos + length bytes ≤ blocksize
      → (pwrite disk bid pos bytes).0 ≡ true
      → (b i : ℕ)
      → get_or ((pwrite disk bid pos bytes).1 b) i 0 ≡ (
          if b == bid && (leb pos i && ltb i (pos + length bytes))
          then get_or bytes (i - pos) 0
          else get_or (disk b) i 0)
  pub byte-pread :
      (disk : ℕ → List ℕ) (bid : ℕ) (buf : List ℕ)
      → pread disk bid ≡ some buf
      → (i : ℕ) → i < blocksize
      → get_or buf i 0 ≡ get_or (disk bid) i 0

-- A file, with its stale list.
pub record File : Type 0 where
  pub file : Filemgr
  pub stale_list : Option (List StaleData)

abbrev pub sb_bmp_revnum : Option Superblock → ℕ
sb_bmp_revnum none = 0
sb_bmp_revnum (some sb) = sb.bmp_revnum

module _ (blocksize : ℕ) (get_checksum : List ℕ → ℕ → ℕ)
    (pread : (ℕ → List ℕ) → ℕ → Option (List ℕ))
    (pwrite : (ℕ → List ℕ) → ℕ → ℕ → List ℕ → Bool × (ℕ → List ℕ)) where
  -- The size of a block, which never changes.
  abbrev sized : File → Filemgr
  sized s = record (s.file) { blocksize = blocksize }

  -- The link at the end of a block, as `filemgr_mark_stale` reads it.
  abbrev linked : Filemgr → ℕ → ℕ
  linked file bid = from_be 0 (slice (file.disk bid) (file.blocksize - docblk_meta_size) 8)

  -- The file manager as documents see it.
  abbrev pub uncached : FileOps
  uncached = record {
    State = File;
    byte = λ s b i. get_or (s.file.disk b) i 0;
    alloc = λ s.
        ((filemgr_alloc true (sized s)).0, record s { file = (filemgr_alloc true (sized s)).1 });
    alloc_multiple = λ s n. (
      (filemgr_alloc_multiple true (sized s) n).0,
      record s { file = (filemgr_alloc_multiple true (sized s) n).1 },
    );
    alloc_multiple_cond = λ s next n. (
      (filemgr_alloc_multiple_cond (sized s) next n).0,
      record s { file = (filemgr_alloc_multiple_cond (sized s) next n).1 },
    );
    is_writable = λ s bid. filemgr_is_writable (sized s) bid;
    mark_stale = λ s pos len. record s {
      stale_list = filemgr_mark_stale (linked (sized s)) (sized s) s.stale_list pos len;
    };
    write_offset = λ s bid pos bytes final. (
      (filemgr_write_offset get_checksum pread pwrite (sized s) bid pos bytes).0,
      record s {
        file = (filemgr_write_offset get_checksum pread pwrite (sized s) bid pos bytes).1;
      },
    );
    read = λ s bid. filemgr_read get_checksum pread pwrite (sized s) bid;
    sb_bmp_revnum = λ s. sb_bmp_revnum s.file.sb;
    pos = λ s. s.file.pos;
  }

  -- Less than a block is written as it is.
  sealed_part :
      (file : Filemgr) (bytes : List ℕ)
      → length bytes < file.blocksize
      → sealed get_checksum pread pwrite file bytes ≡ bytes
  unfolding sealed
  sealed_part file bytes h =
      let part : (length bytes == file.blocksize) ≡ false = ground arith in rw part refl

  -- What is written fits into the block.
  may_write_fits :
      (file : Filemgr) (bid pos len : ℕ)
      → may_write file bid pos len ≡ true
      → pos + len ≤ file.blocksize
  unfolding may_write
  may_write_fits file bid pos len = elim (Bool-cases (ltb file.blocksize (pos + len))) [
    | inl t ↦ rw t (λ e. absurd (ground (arith, e)))
    | inr f ↦ (λ e. ground (arith, f))
  ]

  module _ (P : IsPosix blocksize pread pwrite) where
    byte-filemgr_write_offset :
        (file : Filemgr) (bid pos : ℕ) (bytes : List ℕ)
        → file.blocksize ≡ blocksize
        → length bytes < blocksize
        → (filemgr_write_offset get_checksum pread pwrite file bid pos bytes).0 ≡ true
        → (b i : ℕ)
        → get_or ((filemgr_write_offset get_checksum pread pwrite file bid pos bytes).1.disk b) i 0
          ≡ (if b == bid && (leb pos i && ltb i (pos + length bytes))
              then get_or bytes (i - pos) 0
              else get_or (file.disk b) i 0)
    unfolding filemgr_write_offset
    byte-filemgr_write_offset file bid pos bytes size part =
        elim (Bool-cases (may_write file bid pos (length bytes))) [
          | inr f ↦ rw f (λ e. absurd (ground (arith, e)))
          | inl t ↦
              (let fits = may_write_fits file bid pos (length bytes) t in
                let whole =
                  sealed_part file bytes (subst (λ n. length bytes < n) (sym size) part) in
                rw (t, whole) (P.byte-pwrite file.disk bid pos bytes (omega (arith, fits, size))))
        ]

    pub uncached-IsLawful : IsLawful uncached blocksize
    uncached-IsLawful = record {
      byte-write_offset =
          λ s bid pos bytes final part. byte-filemgr_write_offset (sized s) bid pos bytes refl part;
    }

    in_file :
        (c : Bool) (o : Option (List ℕ)) (buf : List ℕ)
        → (if c then none else o) ≡ some buf
        → o ≡ some buf
    in_file true o buf e = absurd (ground (arith, e))
    in_file false o buf e = e

    checked_other :
        (file : Filemgr) (o : Option (List ℕ)) (buf : List ℕ)
        → ((raw : List ℕ) → o ≡ some raw → get_or raw (file.blocksize - 1) 0 ≢ blk_marker_bnode)
        → checked get_checksum pread pwrite file o ≡ some buf
        → o ≡ some buf
    unfolding filemgr_crc32_check
    checked_other file none buf other = λ e. e
    checked_other file (some raw) buf other =
        let no_node : (get_or raw (file.blocksize - 1) 0 == blk_marker_bnode) ≡ false =
          (let ne = other raw refl in ground (arith, ne)) in
        rw no_node (λ e. e)

    -- A block is read as it is, where no block ends like a node of a B+tree.
    pub uncached-IsReadable :
        (s : File)
        → 0 < blocksize
        → ((b : ℕ) → get_or (s.file.disk b) (blocksize - 1) 0 ≢ blk_marker_bnode)
        → IsReadable uncached blocksize s
    unfolding filemgr_read
    uncached-IsReadable s h other = λ bid buf e i p.
        P.byte-pread s.file.disk bid buf
          (checked_other (sized s) (pread s.file.disk bid) buf
            (λ raw g q.
              other bid
                (sym (P.byte-pread s.file.disk bid raw g (blocksize - 1) (omega arith)) ∙ q))
            (in_file (leb s.file.pos (bid * blocksize))
              (checked get_checksum pread pwrite (sized s) (pread s.file.disk bid)) buf e))
          i p
