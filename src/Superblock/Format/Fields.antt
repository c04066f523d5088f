-- ===== src/Superblock/Format/Fields.antt =====
-- Values that were stored one after the other are read back at their offsets.
use forestdb.Common.Bytes.{
  put_be, from_be, copy_at, slice, length-put_be, from_be-put_be, length-copy_at, get_or-copy_at,
  slice_ext, slice-copy_at,
}
use forestdb.Superblock.Format.{put_u64, get_u64, put_all, read_values, entries, List}
use forestdb.Common.{
  List, ℕ, ◌+◌, ◌∷◌, ◌<◌, length, ◌*◌, ◌≡◌, ◌^◌, ◌∙◌, ◌≤◌, [], refl, get_or, arith, suc, zero, ap,
  ap₂, sym,
}

-- Every value fits 64 bits.
abbrev pub AllSmall : List ℕ → Type 0
AllSmall [] = Unit {0}
AllSmall (v ∷ vs) = (v < 2 ^ 64) × AllSmall vs

pub length-put_all :
    (buf : List ℕ) (off : ℕ) (vs : List ℕ) → length (put_all buf off vs) ≡ length buf
unfolding put_all put_u64
length-put_all buf off [] = refl
length-put_all buf off (v ∷ vs) =
    length-put_all (put_u64 buf off v) (off + 8) vs ∙ length-copy_at buf off (put_be 8 v)

-- Bytes before the offset stay.
put_all_before :
    (buf : List ℕ) (off : ℕ) (vs : List ℕ) (i : ℕ)
    → i < off
    → off + 8 * length vs ≤ length buf
    → get_or (put_all buf off vs) i 0 ≡ get_or buf i 0
unfolding put_all put_u64
put_all_before buf off [] i h k = refl
put_all_before buf off (v ∷ vs) i h k =
    put_all_before (put_u64 buf off v) (off + 8) vs i (omega arith)
      (omega (arith, length-copy_at buf off (put_be 8 v)))
    ∙ ground (arith, get_or-copy_at buf off (put_be 8 v) i, length-put_be 8 v)

length-put_u64 : (buf : List ℕ) (off v : ℕ) → length (put_u64 buf off v) ≡ length buf
unfolding put_u64
length-put_u64 buf off v = length-copy_at buf off (put_be 8 v)

first_value :
    (v : ℕ) (vs : List ℕ) (buf : List ℕ) (off : ℕ)
    → v < 2 ^ 64
    → off + 8 + 8 * length vs ≤ length buf
    → get_u64 (put_all (put_u64 buf off v) (off + 8) vs) off ≡ v
unfolding put_u64 get_u64
first_value v vs buf off s h =
    let eight = length-put_be 8 v in
    ap (from_be 0) (
      slice_ext (put_all (put_u64 buf off v) (off + 8) vs) (put_u64 buf off v) off 8 (λ i p q.
        put_all_before (put_u64 buf off v) (off + 8) vs i (omega arith)
          (omega (arith, length-copy_at buf off (put_be 8 v))))
      ∙ ap (slice (copy_at buf off (put_be 8 v)) off) (sym eight)
      ∙ slice-copy_at buf off (put_be 8 v) (omega (arith, eight)))
    ∙ from_be-put_be 8 v (omega arith)

pub get_u64-put_all :
    (vs : List ℕ) (buf : List ℕ) (off k : ℕ)
    → AllSmall vs
    → off + 8 * length vs ≤ length buf
    → k < length vs
    → get_u64 (put_all buf off vs) (off + 8 * k) ≡ get_or vs k 0
unfolding put_all
get_u64-put_all [] buf off k s h p = absurd (omega arith)
get_u64-put_all (v ∷ vs) buf off zero s h p =
    let start : off + 8 * 0 ≡ off = omega arith in
    ap (get_u64 (put_all (put_u64 buf off v) (off + 8) vs)) start
    ∙ first_value v vs buf off (s.0) (omega arith)
get_u64-put_all (v ∷ vs) buf off (suc k) s h p =
    let start : off + 8 * suc k ≡ off + 8 + 8 * k = omega arith in
    ap (get_u64 (put_all (put_u64 buf off v) (off + 8) vs)) start
    ∙ get_u64-put_all vs (put_u64 buf off v) (off + 8) k (s.1)
        (omega (arith, length-put_u64 buf off v)) (omega arith)

-- A run of values is read back as one.
pub read_values-put_all :
    (n : ℕ) (vs : List ℕ) (buf : List ℕ) (k : ℕ)
    → AllSmall vs
    → 8 * length vs ≤ length buf
    → k + n ≤ length vs
    → read_values n (put_all buf 0 vs) (8 * k) ≡ entries n k vs
unfolding read_values entries
read_values-put_all zero vs buf k s h p = refl
read_values-put_all (suc n) vs buf k s h p =
    let start : 8 * k ≡ 0 + 8 * k = omega arith in
    let on : 8 * k + 8 ≡ 8 * (k + 1) = omega arith in
    ap₂ ◌∷◌
      (ap (get_u64 (put_all buf 0 vs)) start
        ∙ get_u64-put_all vs buf 0 k s (omega arith) (omega arith))
      (ap (read_values n (put_all buf 0 vs)) on
        ∙ read_values-put_all n vs buf (k + 1) s h (omega arith))
