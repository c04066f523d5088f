-- ===== src/FileManager/Interface.antt =====
-- What documents use of src/filemgr.cc: the functions and what they promise. A state is the file
-- with all that stands behind it; `byte` is what a block holds, in the cache or on disk.

use Prim.Native.Nat.{ℕ}
use forestdb.Common.{
  ℕ, Bool, List, Option, ◌≡◌, true, if◌then◌else◌, ◌==◌, ◌&&◌, leb, ltb, ◌+◌, length, get_or, ◌-◌,
  some, ◌<◌,
}

pub record FileOps : Type 1 where
  pub State : Type 0
  pub byte : State → ℕ → ℕ → ℕ
  pub alloc : State → ℕ × State
  pub alloc_multiple : State → ℕ → (ℕ × ℕ) × State
  pub alloc_multiple_cond : State → ℕ → ℕ → (ℕ × ℕ × ℕ) × State
  pub is_writable : State → ℕ → Bool
  pub mark_stale : State → ℕ → ℕ → State
  pub write_offset : State → ℕ → ℕ → List ℕ → Bool → Bool × State
  pub read : State → ℕ → Option (List ℕ)
  pub sb_bmp_revnum : State → ℕ
  pub pos : State → ℕ

-- A write of less than a block that succeeds changes the bytes that it names and no others.
pub record IsLawful (F : FileOps) (blocksize : ℕ) : Type 0 where
  pub byte-write_offset :
      (s : F.State) (bid pos : ℕ) (bytes : List ℕ) (final : Bool)
      → length bytes < blocksize
      → (F.write_offset s bid pos bytes final).0 ≡ true
      → (b i : ℕ)
      → F.byte (F.write_offset s bid pos bytes final).1 b i ≡ (
          if b == bid && (leb pos i && ltb i (pos + length bytes))
          then get_or bytes (i - pos) 0
          else F.byte s b i)

-- In a state, what is read of a block is what it holds.
abbrev pub IsReadable : (F : FileOps) → ℕ → F.State → Type 0
IsReadable F blocksize s =
    (bid : ℕ) (buf : List ℕ)
    → F.read s bid ≡ some buf
    → (i : ℕ) → i < blocksize
    → get_or buf i 0 ≡ F.byte s bid i
