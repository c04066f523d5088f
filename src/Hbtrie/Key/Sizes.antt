-- ===== src/Hbtrie/Key/Sizes.antt =====
-- The sizes of a reformed key: the raw key ends in the last chunk but one.
use forestdb.Hbtrie.Key.{l2c, get_nchunk_raw, get_nchunk, rest_size, ℕ}
use native.Mathlib.Nat.{div-add-mod', mod-lt, mod-eq_of_lt, mul-add-div_right, div-eq_of_lt}
use forestdb.Common.{
  ℕ, ◌<◌, Bool-cases, ◌≡◌, ◌≤◌, ◌*◌, ◌+◌, ◌==◌, inl, ◌-◌, arith, ap, inr, ◌/◌, if◌then◌else◌, ◌%◌,
  ◌∙◌, ltb, suc, zero, true,
}

pub l2c-bounds :
    (chunksize len : ℕ)
    → 0 < chunksize
    → (len ≤ l2c chunksize len * chunksize) × (l2c chunksize len * chunksize < len + chunksize)
unfolding l2c
l2c-bounds chunksize len h =
    let parts = div-add-mod' (len + (chunksize - 1)) chunksize in
    let rest = mod-lt (len + (chunksize - 1)) {m = chunksize} h in (omega arith, omega arith)

pub l2c-pos : (chunksize len : ℕ) → 0 < chunksize → 0 < len → 0 < l2c chunksize len
l2c-pos chunksize len h k = elim (Bool-cases (l2c chunksize len == 0)) [
  | inl z ↦
      (let empty : l2c chunksize len * chunksize ≡ 0 * chunksize =
          ap (λ t. t * chunksize) (ground arith) in
        absurd (omega (arith, (l2c-bounds chunksize len h).0)))
  | inr more ↦ ground arith
]

before_last :
    (chunksize len q : ℕ)
    → 0 < q
    → len ≤ q * chunksize
    → q * chunksize < len + chunksize
    → (if ltb 2 (q + 1) then len - (q + 1 - 2) * chunksize else len)
      ≡ len + chunksize - q * chunksize
before_last chunksize len zero p low high = absurd (omega arith)
before_last chunksize len (suc zero) p low high = omega arith
before_last chunksize len (suc (suc q)) p low high =
    let one : suc (suc q) + 1 - 2 ≡ suc q = omega arith in
    let less : ltb 2 (suc (suc q) + 1) ≡ true = ground arith in rw (less, one) (omega arith)

-- `rsize` as what the chunks before the last but one leave.
pub rest_size-eq :
    (chunksize len : ℕ)
    → 0 < chunksize
    → chunksize < 256
    → 0 < len
    → rest_size chunksize len ≡ len + chunksize - l2c chunksize len * chunksize
unfolding rest_size get_nchunk_raw
rest_size-eq chunksize len h k p =
    let (low, high) = l2c-bounds chunksize len h in
    let at_least = l2c-pos chunksize len h p in
    ap (λ t. t % 256) (before_last chunksize len (l2c chunksize len) at_least low high)
    ∙ mod-eq_of_lt (omega arith)

-- The comment at `_get_nchunk_raw`: it is the number of chunks of the reformed key.
pub get_nchunk-raw :
    (chunksize len : ℕ)
    → 0 < chunksize
    → 0 < len
    → get_nchunk chunksize (get_nchunk_raw chunksize len * chunksize) ≡ get_nchunk_raw chunksize len
unfolding get_nchunk get_nchunk_raw
get_nchunk-raw chunksize len h p =
    let last : get_nchunk_raw chunksize len * chunksize - 1
        ≡ l2c chunksize len * chunksize + (chunksize - 1) =
      unfold get_nchunk_raw in omega arith in
    ap (λ t. t / chunksize + 1) last
    ∙ ap (λ t. t + 1) (mul-add-div_right h (l2c chunksize len) (chunksize - 1))
    ∙ ap (λ t. l2c chunksize len + t + 1) (div-eq_of_lt (omega arith))
    ∙ unfold get_nchunk_raw in omega arith

pub rest_size-zero : (chunksize : ℕ) → rest_size chunksize 0 ≡ 0
unfolding rest_size get_nchunk_raw
rest_size-zero chunksize = elim (Bool-cases (ltb 2 (l2c chunksize 0 + 1))) [
  | inl t ↦ rw t (omega arith)
  | inr f ↦ rw f (omega arith)
]
