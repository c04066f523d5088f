-- ===== src/Docio.antt =====
-- Documents in blocks: src/docio.cc. A block of a document ends with its metadata (or, in files of
-- older versions, with a marker), and `next_bid` links it to the block in which the document goes on.
pub mod Append
pub mod Layout
pub mod Read
pub mod RoundTrip
mod Memory
mod Uncached
mod Tests
use forestdb.Common.Bytes.{length-put_be, put_be, from_be}
use forestdb.FileManager.Interface.{FileOps}
use forestdb.FileManager.Stale.{docblk_meta_size}
use forestdb.Version.{ver_non_consecutive_doc}
use forestdb.Common.{
  ℕ, ◌-◌, List, if◌then◌else◌, ◌++◌, ◌∷◌, [], length, ◌≡◌, arith, length-append, ◌+◌, ◌^◌, ◌%◌,
}
use Prim.Native.Nat.{ℕ}

-- `sizeof(struct docio_length)`, aligned
abbrev pub docio_length_size : ℕ
docio_length_size = 16

abbrev pub blk_marker_doc : ℕ
blk_marker_doc = 0xdd

-- `struct docio_handle`: what appending uses.
pub record Handle : Type 0 where
  pub curblock : ℕ
  pub curpos : ℕ
  pub cur_bmp_revnum_hash : ℕ

-- A difference of sizes in a `uint32_t`.
abbrev pub sub32 : ℕ → ℕ → ℕ
sub32 a b = (a + 2 ^ 64 - b) % 2 ^ 32

-- The space for documents in a block.
unfoldable pub blocksize : ℕ → ℕ → ℕ
blocksize version real_blocksize =
    real_blocksize - (if ver_non_consecutive_doc version then docblk_meta_size else 1)

-- `struct docblk_meta`, as it is stored.
unfoldable pub docblk_meta : ℕ → ℕ → List ℕ
docblk_meta next_bid hash =
    put_be 8 next_bid ++ (put_be 2 hash ++ (0 ∷ 0 ∷ 0 ∷ 0 ∷ 0 ∷ blk_marker_doc ∷ []))

pub length-docblk_meta : (next_bid hash : ℕ) → length (docblk_meta next_bid hash) ≡ 16
unfolding docblk_meta
length-docblk_meta next_bid hash = omega (
  arith,
  length-append (put_be 8 next_bid) (put_be 2 hash ++ (0 ∷ 0 ∷ 0 ∷ 0 ∷ 0 ∷ blk_marker_doc ∷ [])),
  length-append (put_be 2 hash) (0 ∷ 0 ∷ 0 ∷ 0 ∷ 0 ∷ blk_marker_doc ∷ []),
  length-put_be 8 next_bid,
  length-put_be 2 hash,
)
