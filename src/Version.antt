-- ===== src/Version.antt =====
-- src/version.cc: the magic numbers of file versions (src/internal_types.h) and what each supports.
pub mod Laws
use Prim.Native.String.{String}
use forestdb.Common.{ℕ, ◌^◌, if◌then◌else◌, Bool, ◌-◌, ◌==◌, leb, ◌||◌, ◌&&◌}

abbrev pub filemgr_magic_000 : ℕ
filemgr_magic_000 = 0xdeadcafebeefbeef

abbrev pub filemgr_magic_001 : ℕ
filemgr_magic_001 = 0xdeadcafebeefc001

abbrev pub filemgr_magic_002 : ℕ
filemgr_magic_002 = 0xdeadcafebeefc002

abbrev pub filemgr_latest_magic : ℕ
filemgr_latest_magic = filemgr_magic_002

pub ver_is_valid_magic : ℕ → Bool
ver_is_valid_magic magic =
    magic == filemgr_magic_000 || leb filemgr_magic_001 magic && leb magic filemgr_latest_magic

pub ver_is_magic_000 : ℕ → Bool
ver_is_magic_000 magic = magic == filemgr_magic_000

pub ver_is_atleast_magic_001 : ℕ → Bool
ver_is_atleast_magic_001 magic = leb filemgr_magic_001 magic && leb magic filemgr_latest_magic

pub ver_staletree_support : ℕ → Bool
ver_staletree_support magic = leb filemgr_magic_002 magic && leb magic filemgr_latest_magic

unfoldable pub ver_non_consecutive_doc : ℕ → Bool
ver_non_consecutive_doc magic = leb filemgr_magic_002 magic && leb magic filemgr_latest_magic

unfoldable pub ver_superblock_support : ℕ → Bool
ver_superblock_support magic = leb filemgr_magic_002 magic && leb magic filemgr_latest_magic

-- `ver_get_latest_magic`
abbrev pub ver_get_latest_magic : ℕ
ver_get_latest_magic = filemgr_latest_magic

-- `(size_t) -1` for an unknown magic number
abbrev pub size_t_max : ℕ
size_t_max = 2 ^ 64 - 1

pub ver_get_new_filename_off : ℕ → ℕ
ver_get_new_filename_off magic =
    if magic == filemgr_magic_000
    then 64
    else if magic == filemgr_magic_001
    then 72
    else if magic == filemgr_magic_002
    then 80
    else size_t_max

pub ver_get_last_wal_flush_hdr_off : ℕ → ℕ
ver_get_last_wal_flush_hdr_off magic =
    if magic == filemgr_magic_000
    then 40
    else if magic == filemgr_magic_001
    then 48
    else if magic == filemgr_magic_002
    then 56
    else size_t_max

pub ver_get_version_string : ℕ → String
ver_get_version_string magic =
    if magic == filemgr_magic_000
    then "ForestDB v1.x format"
    else if magic == filemgr_magic_001
    then "ForestDB v1.x format"
    else if magic == filemgr_magic_002
    then "ForestDB v2.x format"
    else "unknown"
