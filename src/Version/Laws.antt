-- ===== src/Version/Laws.antt =====
-- The version tests agree with one another.
use forestdb.Version.{
  ver_is_valid_magic, ver_is_magic_000, ver_is_atleast_magic_001, ver_superblock_support,
  ver_staletree_support, ver_non_consecutive_doc, ver_get_new_filename_off,
  ver_get_last_wal_flush_hdr_off, size_t_max, ℕ,
}
use forestdb.Common.{ℕ, ◌≡◌, true, ◌||◌, ◌&&◌, ◌↔◌, ◌≢◌, false, ◌+◌, not, arith}

-- The header offsets are known exactly for the valid magic numbers, and the name of the new file
-- then stands 24 bytes behind the last WAL flush header.
pub valid_magic-offsets :
    (magic : ℕ)
    → ((ver_is_valid_magic magic ≡ true) ↔ (ver_get_new_filename_off magic ≢ size_t_max))
      × ((ver_is_valid_magic magic ≡ true)
          ↔ (ver_get_last_wal_flush_hdr_off magic + 24 ≡ ver_get_new_filename_off magic))
unfolding ver_is_valid_magic ver_get_new_filename_off ver_get_last_wal_flush_hdr_off
valid_magic-offsets magic =
    ((λ h. ground arith, λ h. ground arith), (λ h. ground arith, λ h. ground arith))

-- A valid magic number is 000 or at least 001, never both; superblocks, the stale tree and
-- documents in scattered blocks come together, and only with a number that is at least 001.
pub valid_magic-features :
    (magic : ℕ)
    → (ver_is_valid_magic magic ≡ (ver_is_magic_000 magic || ver_is_atleast_magic_001 magic))
      × ((ver_is_magic_000 magic && ver_is_atleast_magic_001 magic) ≡ false)
      × (ver_staletree_support magic ≡ ver_superblock_support magic)
      × (ver_non_consecutive_doc magic ≡ ver_superblock_support magic)
      × ((ver_superblock_support magic && not (ver_is_atleast_magic_001 magic)) ≡ false)
unfolding ver_is_valid_magic ver_is_magic_000 ver_is_atleast_magic_001 ver_superblock_support
    ver_staletree_support ver_non_consecutive_doc
valid_magic-features magic = ground arith
