-- ===== src/Hbtrie/Key/Chunks.antt =====
-- `_hbtrie_find_diff_chunk`: the first chunk in which two keys differ.
use forestdb.Hbtrie.Key.Reform.{hbtrie_reform_key-injective}
use native.Mathlib.Nat.{div-add-mod, mod-lt, div-lt_iff_lt-mul}
use forestdb.Hbtrie.Key.{
  hbtrie_reform_key, get_nchunk_raw, same_bytes, diff_loop, hbtrie_find_diff_chunk,
}
use forestdb.Common.{
  List, ℕ, ◌*◌, ◌<◌, ◌≡◌, ◌≤◌, get_or, ◌+◌, suc, true, max, arith, Bool-cases, zero, refl, inl, inr,
  length, ◌-◌, ◌==◌, ◌/◌, some, ◌%◌, subst, ◌≢◌, ltb, ltb→lt,
}

abbrev SameFrom : List ℕ → List ℕ → ℕ → ℕ → Type 0
SameFrom key1 key2 off n = (j : ℕ) → j < n → get_or key1 (off + j) 0 ≡ get_or key2 (off + j) 0

-- The chunks of two keys agree in every byte.
pub SameChunk : ℕ → List ℕ → List ℕ → ℕ → Type 0
SameChunk chunksize key1 key2 i = SameFrom key1 key2 (chunksize * i) chunksize

SameFrom-cons :
    (key1 key2 : List ℕ) (off n : ℕ)
    → get_or key1 off 0 ≡ get_or key2 off 0
    → SameFrom key1 key2 (off + 1) n
    → SameFrom key1 key2 off (suc n)
SameFrom-cons key1 key2 off n h k zero p = let z : off + 0 ≡ off = omega arith in rw z h
SameFrom-cons key1 key2 off n h k (suc j) p =
    let on : off + suc j ≡ off + 1 + j = omega arith in rw on (k j (omega arith))

SameFrom-tail :
    (key1 key2 : List ℕ) (off n : ℕ)
    → SameFrom key1 key2 off (suc n)
    → SameFrom key1 key2 (off + 1) n
SameFrom-tail key1 key2 off n h j p =
    let on : off + 1 + j ≡ off + suc j = omega arith in rw on (h (suc j) (omega arith))

same_bytes_sound :
    (key1 key2 : List ℕ) (off n : ℕ) → same_bytes key1 key2 off n ≡ true → SameFrom key1 key2 off n
unfolding same_bytes
same_bytes_sound key1 key2 off zero h = λ j p. absurd (omega arith)
same_bytes_sound key1 key2 off (suc n) h =
    SameFrom-cons key1 key2 off n (ground arith)
      (same_bytes_sound key1 key2 (off + 1) n (ground arith))

same_bytes_complete :
    (key1 key2 : List ℕ) (off n : ℕ) → SameFrom key1 key2 off n → same_bytes key1 key2 off n ≡ true
unfolding same_bytes
same_bytes_complete key1 key2 off zero h = refl
same_bytes_complete key1 key2 off (suc n) h =
    let first : get_or key1 off 0 ≡ get_or key2 off 0 =
      let z : off ≡ off + 0 = omega arith in rw z (h 0 (omega arith)) in
    let rest = same_bytes_complete key1 key2 (off + 1) n (SameFrom-tail key1 key2 off n h) in
    ground (arith, first, rest)

-- `i` is the first chunk from `start` on and before `end` in which the keys differ, or the end.
pub record IsFirstDiff (chunksize : ℕ) (key1 key2 : List ℕ) (start end i : ℕ) : Type 0 where
  pub above : start ≤ i
  pub below : i ≤ max start end
  pub before : (j : ℕ) → start ≤ j → j < i → SameChunk chunksize key1 key2 j
  pub differs : i < end → ¬ SameChunk chunksize key1 key2 i

diff_loop-IsFirstDiff :
    (chunksize : ℕ) (key1 key2 : List ℕ) (i n : ℕ)
    → IsFirstDiff chunksize key1 key2 i (i + n) (diff_loop chunksize key1 key2 i n)
unfolding diff_loop SameChunk
diff_loop-IsFirstDiff chunksize key1 key2 i zero = record {
  above = omega arith;
  below = omega arith;
  before = λ j p q. absurd (omega arith);
  differs = λ p. absurd (omega arith);
}
diff_loop-IsFirstDiff chunksize key1 key2 i (suc n) =
    elim (Bool-cases (same_bytes key1 key2 (chunksize * i) chunksize)) [
      | inl t ↦
          (let rest = diff_loop-IsFirstDiff chunksize key1 key2 (i + 1) n in
            rw t record {
              above = omega (arith, rest.above);
              below = omega (arith, rest.below);
              before = λ j p q. elim (Bool-cases (i == j)) [
                | inl e ↦
                    subst (SameChunk chunksize key1 key2) (let at : i ≡ j = ground arith in at)
                      (same_bytes_sound key1 key2 (chunksize * i) chunksize t)
                | inr ne ↦ rest.before j (ground arith) q
              ];
              differs = λ p. rest.differs (omega arith);
            })
      | inr f ↦ rw f record {
        above = omega arith;
        below = omega arith;
        before = λ j p q. absurd (omega arith);
        differs = λ p same.
            (let yes_same = same_bytes_complete key1 key2 (chunksize * i) chunksize same in
              ground (arith, yes_same, f));
      }
    ]

-- `_hbtrie_find_diff_chunk` ends, at the first chunk in which the keys differ, or at the end.
pub hbtrie_find_diff_chunk-IsFirstDiff :
    (chunksize : ℕ) (key1 key2 : List ℕ) (start end : ℕ)
    → IsFirstDiff chunksize key1 key2 start
        (max start end)
        (hbtrie_find_diff_chunk chunksize key1 key2 start end)
unfolding hbtrie_find_diff_chunk
hbtrie_find_diff_chunk-IsFirstDiff chunksize key1 key2 start end =
    let stop : start + (end - start) ≡ max start end = omega arith in
    subst
      (λ t.
        IsFirstDiff chunksize key1 key2 start t (diff_loop chunksize key1 key2 start (end - start)))
      stop (diff_loop-IsFirstDiff chunksize key1 key2 start (end - start))

byte_in_chunk :
    (chunksize : ℕ) (key1 key2 : List ℕ)
    → 0 < chunksize
    → (n : ℕ) → ((j : ℕ) → j < n → SameChunk chunksize key1 key2 j)
    → (i : ℕ) → i < n * chunksize
    → get_or key1 i 0 ≡ get_or key2 i 0
unfolding SameChunk
byte_in_chunk chunksize key1 key2 h n same i p =
    let parts : chunksize * (i / chunksize) + i % chunksize ≡ i = div-add-mod i chunksize in
    subst (λ t. get_or key1 t 0 ≡ get_or key2 t 0) parts
      (same (i / chunksize) ((div-lt_iff_lt-mul {x = i} {y = n} h).1 p) (i % chunksize)
        (mod-lt i h))

-- Two different keys with the same number of chunks differ in one of them: the search over their
-- reformed keys ends before the last chunk is passed.
pub hbtrie_find_diff_chunk-hbtrie_reform_key :
    (chunksize : ℕ) (a b x y : List ℕ) (nchunk : ℕ) (p q : List ℕ)
    → 0 < chunksize
    → chunksize < 256
    → get_nchunk_raw chunksize (length a) * chunksize ≤ length x
    → get_nchunk_raw chunksize (length b) * chunksize ≤ length y
    → hbtrie_reform_key chunksize a x ≡ (some (nchunk * chunksize), p)
    → hbtrie_reform_key chunksize b y ≡ (some (nchunk * chunksize), q)
    → a ≢ b
    → hbtrie_find_diff_chunk chunksize p q 0 nchunk < nchunk
hbtrie_find_diff_chunk-hbtrie_reform_key chunksize a b x y nchunk p q h k room_a room_b ea eb ne =
    let first = hbtrie_find_diff_chunk-IsFirstDiff chunksize p q 0 nchunk in
    elim (Bool-cases (ltb (hbtrie_find_diff_chunk chunksize p q 0 nchunk) nchunk)) [
      | inl t ↦ ltb→lt _ _ t
      | inr f ↦ absurd (
          ne (
            hbtrie_reform_key-injective chunksize a b x y (nchunk * chunksize) p q h k room_a room_b
              ea eb
              (byte_in_chunk chunksize p q h nchunk
                (λ j l. first.before j (omega arith) (ground (arith, first.below))))))
    ]
