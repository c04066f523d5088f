-- ===== src/Superblock/Format/RoundTrip.antt =====
-- What `sb_write` stores is what `_sb_read_given_no` reads.
use forestdb.Superblock.State.{Superblock, Filemgr, success}
use forestdb.Superblock.Format.{
  get_u64, put_all, block_of, stored_values, sb_write, sb_read_given_no, blk_marker_sb, read_length,
  rsv_size, bmp_size_to_num_docs,
}
use forestdb.Superblock.Format.Restored.{restored, Holds, length-stored_values, Holds-read_fields}
use forestdb.Superblock.Format.Fields.{
  AllSmall, length-put_all, get_u64-put_all, read_values-put_all,
}
use forestdb.Superblock.Format.Entries.{get_u64_ext, read_values_ext}
use forestdb.Common.Bytes.{
  put_be, from_be, copy_at, slice, length-put_be, from_be-put_be, length-copy_at, get_or-copy_at,
  slice_ext, slice-copy_at,
}
use forestdb.Version.{ver_superblock_support}
use forestdb.Common.{
  ℕ, List, ◌≡◌, ◌*◌, length, calloc, true, ◌+◌, ◌∙◌, ◌<◌, get_or, ◌^◌, length-calloc, ◌-◌, arith,
  ◌==◌, sym, get_or-set, ap, refl, if◌then◌else◌,
}

length-block_start :
    (blocksize : ℕ) (vs : List ℕ) → length (put_all (calloc blocksize) 0 vs) ≡ blocksize
length-block_start blocksize vs = length-put_all (calloc blocksize) 0 vs ∙ length-calloc blocksize

reserve_length :
    (n : ℕ) → (if n == 0 then 0 else 8 * bmp_size_to_num_docs n) ≡ 8 * bmp_size_to_num_docs n
unfolding bmp_size_to_num_docs
reserve_length n = ground arith

stored_sizes :
    (version : ℕ) (sb : Superblock)
    → (get_or (stored_values version sb) 10 0 ≡ sb.bmp_size)
      × (get_or (stored_values version sb) 11 0 ≡ rsv_size sb.rsv_bmp)
      × (get_or (stored_values version sb) 0 0 ≡ version)
unfolding stored_values
stored_sizes version sb = (refl, refl, refl)

-- The checksum is read where it was stored.
read_length_stored :
    (version : ℕ) (sb : Superblock) (buf : List ℕ)
    → Holds buf (stored_values version sb)
    → read_length buf ≡ 8 * length (stored_values version sb)
unfolding read_length
read_length_stored version sb buf h =
    let lengths = length-stored_values version sb in
    let sizes = stored_sizes version sb in
    rw
      (
        h.value 10 (omega (arith, lengths)),
        h.value 11 (omega (arith, lengths)),
        sizes.0,
        sizes.1,
        reserve_length (rsv_size sb.rsv_bmp),
      )
      (omega (arith, lengths))

module _ (get_checksum : List ℕ → ℕ → ℕ) where
  block_bytes :
      (blocksize crc_mode : ℕ) (vs : List ℕ) (i : ℕ)
      → 8 * length vs + 4 < blocksize
      → i < 8 * length vs
      → get_or (block_of get_checksum blocksize crc_mode vs) i 0
        ≡ get_or (put_all (calloc blocksize) 0 vs) i 0
  unfolding block_of
  block_bytes blocksize crc_mode vs i h p =
      let start = put_all (calloc blocksize) 0 vs in
      let crc = get_checksum (slice start 0 (8 * length vs)) crc_mode in
      let stored = copy_at start (8 * length vs) (put_be 4 crc) in
      let size = length-block_start blocksize vs in
      let four = length-put_be 4 crc in
      let kept = length-copy_at start (8 * length vs) (put_be 4 crc) in
      ground (
        arith,
        size,
        four,
        kept,
        get_or-set stored (blocksize - 1) i blk_marker_sb 0,
        get_or-copy_at start (8 * length vs) (put_be 4 crc) i,
      )

  block-Holds :
      (blocksize crc_mode : ℕ) (vs : List ℕ)
      → AllSmall vs
      → 8 * length vs + 4 < blocksize
      → Holds (block_of get_checksum blocksize crc_mode vs) vs
  block-Holds blocksize crc_mode vs s h =
      let size = length-block_start blocksize vs in
      let clear = length-calloc blocksize in
      let start = put_all (calloc blocksize) 0 vs in
      let block = block_of get_checksum blocksize crc_mode vs in
      let same = λ (i : ℕ) (p : i < 8 * length vs). block_bytes blocksize crc_mode vs i h p in
      record {
        value = λ k p.
            get_u64_ext block start (8 * k) (8 * length vs) same (omega arith)
            ∙ ap (get_u64 start) (omega arith)
            ∙ get_u64-put_all vs (calloc blocksize) 0 k s (omega (arith, clear)) p;
        run = λ n k p.
            read_values_ext block start n (8 * k) (8 * length vs) same (omega arith)
            ∙ read_values-put_all n vs (calloc blocksize) k s (omega (arith, clear)) p;
      }

  -- The checksum and the marker of a block.
  block_checksum :
      (blocksize crc_mode : ℕ) (vs : List ℕ)
      → 8 * length vs + 4 < blocksize
      → ((l : List ℕ) (mode : ℕ) → get_checksum l mode < 2 ^ 32)
      → (get_or (block_of get_checksum blocksize crc_mode vs) (blocksize - 1) 0 ≡ blk_marker_sb)
        × (from_be 0 (slice (block_of get_checksum blocksize crc_mode vs) (8 * length vs) 4)
            ≡ get_checksum
                (slice (block_of get_checksum blocksize crc_mode vs) 0 (8 * length vs))
                crc_mode)
  unfolding block_of
  block_checksum blocksize crc_mode vs h w =
      let start = put_all (calloc blocksize) 0 vs in
      let off = 8 * length vs in
      let crc = get_checksum (slice start 0 off) crc_mode in
      let stored = copy_at start off (put_be 4 crc) in
      let block = block_of get_checksum blocksize crc_mode vs in
      let size = length-block_start blocksize vs in
      let four = length-put_be 4 crc in
      let kept = length-copy_at start off (put_be 4 crc) in
      let covered : slice start 0 off ≡ slice block 0 off =
        slice_ext start block 0 off
          (λ i p q. sym (block_bytes blocksize crc_mode vs i h (omega arith))) in
      let found : slice block off 4 ≡ put_be 4 crc =
        slice_ext block stored off 4
          (λ i p q. ground (arith, size, kept, get_or-set stored (blocksize - 1) i blk_marker_sb 0))
        ∙ ap (slice stored off) (sym four)
        ∙ slice-copy_at start off (put_be 4 crc) (omega (arith, four, size)) in
      (
        ground
            (arith, size, kept, get_or-set stored (blocksize - 1) (blocksize - 1) blk_marker_sb 0),
        ap (from_be 0) found
            ∙ from_be-put_be 4 crc (omega (arith, w (slice start 0 off) crc_mode))
            ∙ ap (λ l. get_checksum l crc_mode) covered,
      )

  -- In a file of a version with superblocks, reading the block where `sb_write` has stored a
  -- superblock succeeds, and gives back every field that is stored and the offsets of the bitmap
  -- documents of the bitmap and of a ready reserve. The values must fit 64 bits, the checksum 32
  -- bits, and the block must have room for them and its marker.
  pub sb_read_given_no-sb_write :
      (file : Filemgr) (sb into : Superblock) (sb_no : ℕ)
      → ver_superblock_support file.version ≡ true
      → AllSmall (stored_values file.version sb)
      → 8 * length (stored_values file.version sb) + 4 < file.blocksize
      → ((l : List ℕ) (mode : ℕ) → get_checksum l mode < 2 ^ 32)
      → sb_read_given_no get_checksum
          (record file { disk = (sb_write get_checksum file sb sb_no true).2 })
          into
          sb_no
          true
        ≡ (success, restored into sb)
  unfolding sb_write sb_read_given_no read_length
  sb_read_given_no-sb_write file sb into sb_no support s h w =
      let vs = stored_values file.version sb in
      let block = block_of get_checksum file.blocksize file.crc_mode vs in
      let holds = block-Holds file.blocksize file.crc_mode vs s h in
      let sums = block_checksum file.blocksize file.crc_mode vs h w in
      let filled = Holds-read_fields file.version sb into block holds in
      let offset = read_length_stored file.version sb block holds in
      let version = stored_sizes file.version sb in
      let first = holds.value 0 (omega (arith, length-stored_values file.version sb)) in
      let same : (sb_no == sb_no) ≡ true = ground arith in
      rw (same, filled, offset, sums.0, first, version.2, support, sums.1) (ground arith)
