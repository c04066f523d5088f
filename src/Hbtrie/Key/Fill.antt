-- ===== src/Hbtrie/Key/Fill.antt =====
-- The bytes of the output buffer of `_hbtrie_reform_key`.
use forestdb.Common.Bytes.{copy_at, get_or-copy_at, length-copy_at}
use forestdb.Common.{
  ℕ, List, length, ◌≤◌, ◌<◌, ◌*◌, ◌+◌, get_or, ◌≡◌, set, calloc, ◌-◌, arith, if◌then◌else◌, ltb,
  length-calloc, get_or-calloc, get_or-set, Bool-cases, inl, ltb→lt, inr, zero, refl,
}
use Prim.Native.Nat.{ℕ, suc}

-- Both ways to fill the rest put zeros behind the raw key.
pub normal_form :
    (chunksize len rsize q : ℕ) (copied : List ℕ)
    → len ≤ q * chunksize
    → q * chunksize < len + chunksize
    → 0 < q
    → rsize ≡ len + chunksize - q * chunksize
    → (if ltb rsize chunksize
        then copy_at copied ((q + 1 - 2) * chunksize + rsize) (calloc (2 * chunksize - rsize))
        else copy_at copied ((q + 1 - 1) * chunksize) (calloc chunksize))
      ≡ copy_at copied len (calloc (q * chunksize + chunksize - len))
normal_form chunksize len rsize zero copied low high p e = absurd (omega arith)
normal_form chunksize len rsize (suc m) copied low high p e =
    elim (Bool-cases (ltb rsize chunksize)) [
      | inl t ↦
          (let at : (suc m + 1 - 2) * chunksize + rsize ≡ len =
              (let one : suc m + 1 - 2 ≡ m = omega arith in
                rw one (omega (arith, ltb→lt rsize chunksize t))) in
            let size : 2 * chunksize - rsize ≡ suc m * chunksize + chunksize - len = omega arith in
            rw (t, at, size) refl)
      | inr f ↦
          (let at : (suc m + 1 - 1) * chunksize ≡ len =
              (let one : suc m + 1 - 1 ≡ suc m = omega arith in rw one (ground arith)) in
            let size : suc m * chunksize + chunksize - len ≡ chunksize = ground arith in
            rw (f, at, size) refl)
    ]

pub filled_at :
    (raw out : List ℕ) (size last i : ℕ)
    → length raw < size
    → size ≤ length out
    → i < size
    → get_or
        (set
          (copy_at (copy_at out 0 raw) (length raw) (calloc (size - length raw)))
          (size - 1)
          last)
        i
        0
      ≡ (if ltb i (length raw) then get_or raw i 0 else if ltb i (size - 1) then 0 else last)
filled_at raw out size last i h k p = ground (
  arith,
  length-calloc (size - length raw),
  length-copy_at out 0 raw,
  length-copy_at (copy_at out 0 raw) (length raw) (calloc (size - length raw)),
  get_or-calloc (size - length raw) (i - length raw),
  get_or-copy_at out 0 raw i,
  get_or-copy_at (copy_at out 0 raw) (length raw) (calloc (size - length raw)) i,
  get_or-set (copy_at (copy_at out 0 raw) (length raw) (calloc (size - length raw))) (size - 1) i
      last 0,
)

pub untouched :
    (raw out : List ℕ) (size last i : ℕ)
    → length raw < size
    → size ≤ length out
    → size ≤ i
    → get_or
        (set
          (copy_at (copy_at out 0 raw) (length raw) (calloc (size - length raw)))
          (size - 1)
          last)
        i
        0
      ≡ get_or out i 0
untouched raw out size last i h k p = ground (
  arith,
  length-calloc (size - length raw),
  length-copy_at out 0 raw,
  length-copy_at (copy_at out 0 raw) (length raw) (calloc (size - length raw)),
  get_or-calloc (size - length raw) (i - length raw),
  get_or-copy_at out 0 raw i,
  get_or-copy_at (copy_at out 0 raw) (length raw) (calloc (size - length raw)) i,
  get_or-set (copy_at (copy_at out 0 raw) (length raw) (calloc (size - length raw))) (size - 1) i
      last 0,
)
