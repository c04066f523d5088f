-- ===== src/Docio/Memory.antt =====
-- A file manager that keeps the blocks of a file in memory and never fails. It keeps the promises of
-- forestdb.FileManager.Interface.
use forestdb.Common.{
  ℕ, refl, ◌+◌, List, ◌<◌, some, ◌*◌, ◌-◌, ◌≤◌, ◌≡◌, true, get_or, if◌then◌else◌, ◌^◌, ◌==◌, ◌&&◌,
  leb, ltb, length, ap, suc, arith, zero, ◌∙◌, sym,
}
use mathlib.Core.Option.{some-injective}
use forestdb.FileManager.Interface.{FileOps, IsLawful, IsReadable}
use forestdb.Docio.Layout.{bytes_of}
use forestdb.Docio.Append.{alloc_blocks}
use forestdb.Docio.Append.Blocks.{NotIn, Distinct}

pub record Memory : Type 0 where
  pub next : ℕ
  pub content : ℕ → ℕ → ℕ

-- Blocks are handed out three apart, so that the blocks of a document do not follow each other.
abbrev pub memory : ℕ → FileOps
memory blocksize = record {
  State = Memory;
  byte = λ s. s.content;
  alloc = λ s. (s.next, record s { next = s.next + 3 });
  alloc_multiple = λ s n. ((s.next, s.next + n - 1), record s { next = s.next + n });
  alloc_multiple_cond = λ s b n. ((s.next, s.next, s.next + n - 1), record s { next = s.next + n });
  is_writable = λ s b. true;
  mark_stale = λ s pos len. s;
  write_offset = λ s bid pos bytes final. (
    true,
    record s {
      content = λ b i.
          if b == bid && (leb pos i && ltb i (pos + length bytes))
          then get_or bytes (i - pos) 0
          else s.content b i;
    },
  );
  read = λ s bid. some (bytes_of (s.content bid) 0 blocksize);
  sb_bmp_revnum = λ s. 0;
  pos = λ s. s.next * blocksize;
}

get_or-bytes_of : (f : ℕ → ℕ) (off n i : ℕ) → i < n → get_or (bytes_of f off n) i 0 ≡ f (off + i)
unfolding bytes_of
get_or-bytes_of f off zero i h = absurd (omega arith)
get_or-bytes_of f off (suc n) zero h = ap f (omega arith)
get_or-bytes_of f off (suc n) (suc i) h =
    get_or-bytes_of f (off + 1) n i (omega arith) ∙ ap f (omega arith)

read_back :
    (f : ℕ → ℕ) (n : ℕ) (buf : List ℕ)
    → some (bytes_of f 0 n) ≡ some buf
    → (i : ℕ) → i < n
    → get_or buf i 0 ≡ f i
read_back f n buf e i h =
    let same = some-injective (bytes_of f 0 n) buf e in
    ap (λ t. get_or t i 0) (sym same) ∙ get_or-bytes_of f 0 n i h ∙ ap f (omega arith)

pub memory-IsLawful : (blocksize : ℕ) → IsLawful (memory blocksize) blocksize
memory-IsLawful blocksize = record { byte-write_offset = λ s bid pos bytes final part ok b i. refl }

pub memory-IsReadable : (blocksize : ℕ) (s : Memory) → IsReadable (memory blocksize) blocksize s
memory-IsReadable blocksize s = λ bid buf e i h. read_back (s.content bid) blocksize buf e i h

module _ (version blocksize : ℕ) where
  pub memory-NotIn :
      (n b : ℕ) (s : Memory)
      → b < s.next
      → NotIn b (alloc_blocks (memory blocksize) version blocksize n s).0
  unfolding alloc_blocks NotIn
  memory-NotIn zero b s h = tt
  memory-NotIn (suc n) b s h =
      (λ e. omega (arith, e, h), memory-NotIn n b (record s { next = s.next + 3 }) (omega arith))

  pub memory-Distinct :
      (n : ℕ) (s : Memory)
      → s.next + 3 * n ≤ 2 ^ 64
      → Distinct (alloc_blocks (memory blocksize) version blocksize n s).0
  unfolding alloc_blocks Distinct
  memory-Distinct zero s h = tt
  memory-Distinct (suc n) s h = (
    omega arith,
    memory-NotIn n s.next (record s { next = s.next + 3 }) (omega arith),
    memory-Distinct n (record s { next = s.next + 3 }) (omega arith),
  )
