-- ===== src/Hbtrie/Tests.antt =====
-- The theorems on keys with chunks of 8 bytes.
use forestdb.Common.Bytes.{copy_at}
use forestdb.Hbtrie.Key.{
  hbtrie_reform_key, hbtrie_find_diff_chunk, reformed, rest_size, get_nchunk_raw, l2c,
}
use forestdb.Hbtrie.Key.Reform.{Reforms, hbtrie_reform_key-Reforms, hbtrie_reform_key-injective}
use forestdb.Hbtrie.Key.Chunks.{
  IsFirstDiff, hbtrie_find_diff_chunk-IsFirstDiff, hbtrie_find_diff_chunk-hbtrie_reform_key,
}
use forestdb.Common.{
  ◌≡◌, ◌<◌, calloc, ℕ, List, ◌∷◌, arith, ◌≤◌, ◌*◌, [], ap, length, length-calloc, some, refl,
}
use Prim.Native.Nat.{ℕ}

abbrev nine : List ℕ
nine = 1 ∷ 2 ∷ 3 ∷ 4 ∷ 5 ∷ 6 ∷ 7 ∷ 8 ∷ 9 ∷ []

abbrev eight : List ℕ
eight = 1 ∷ 2 ∷ 3 ∷ 4 ∷ 5 ∷ 6 ∷ 7 ∷ 8 ∷ []

abbrev seven : List ℕ
seven = 1 ∷ 2 ∷ 3 ∷ 4 ∷ 5 ∷ 6 ∷ 7 ∷ []

room : (len : ℕ) → len ≤ 9 → 0 < len → get_nchunk_raw 8 len * 8 ≤ length (calloc 24)
unfolding get_nchunk_raw l2c
room len h k = omega (arith, length-calloc 24)

small_room : (len : ℕ) → len ≤ 8 → 0 < len → get_nchunk_raw 8 len * 8 ≤ length (calloc 16)
unfolding get_nchunk_raw l2c
small_room len h k = omega (arith, length-calloc 16)

hbtrie_reform_key-Reforms_example :
    Reforms 8 nine (calloc 24) (hbtrie_reform_key 8 nine (calloc 24))
hbtrie_reform_key-Reforms_example =
    hbtrie_reform_key-Reforms 8 nine (calloc 24) (omega arith) (omega arith)
      (room 9 (omega arith) (omega arith))

abbrev reformed_eight : List ℕ
reformed_eight = 1 ∷ 2 ∷ 3 ∷ 4 ∷ 5 ∷ 6 ∷ 7 ∷ 8 ∷ 0 ∷ 0 ∷ 0 ∷ 0 ∷ 0 ∷ 0 ∷ 0 ∷ 8 ∷ []

abbrev reformed_seven : List ℕ
reformed_seven = 1 ∷ 2 ∷ 3 ∷ 4 ∷ 5 ∷ 6 ∷ 7 ∷ 0 ∷ 0 ∷ 0 ∷ 0 ∷ 0 ∷ 0 ∷ 0 ∷ 0 ∷ 7 ∷ []

reform_eight : hbtrie_reform_key 8 eight (calloc 16) ≡ (some (2 * 8), reformed_eight)
unfolding hbtrie_reform_key reformed rest_size get_nchunk_raw l2c copy_at
reform_eight = refl

reform_seven : hbtrie_reform_key 8 seven (calloc 16) ≡ (some (2 * 8), reformed_seven)
unfolding hbtrie_reform_key reformed rest_size get_nchunk_raw l2c copy_at
reform_seven = refl

hbtrie_reform_key-injective_example : eight ≡ eight
hbtrie_reform_key-injective_example =
    hbtrie_reform_key-injective 8 eight eight (calloc 16) (calloc 16) 16 reformed_eight
      reformed_eight (omega arith) (omega arith) (small_room 8 (omega arith) (omega arith))
      (small_room 8 (omega arith) (omega arith)) reform_eight reform_eight (λ i h. refl)

hbtrie_find_diff_chunk-IsFirstDiff_example :
    IsFirstDiff 8 reformed_eight reformed_seven 0 2
      (hbtrie_find_diff_chunk 8 reformed_eight reformed_seven 0 2)
hbtrie_find_diff_chunk-IsFirstDiff_example =
    hbtrie_find_diff_chunk-IsFirstDiff 8 reformed_eight reformed_seven 0 2

hbtrie_find_diff_chunk-hbtrie_reform_key_example :
    hbtrie_find_diff_chunk 8 reformed_eight reformed_seven 0 2 < 2
hbtrie_find_diff_chunk-hbtrie_reform_key_example =
    hbtrie_find_diff_chunk-hbtrie_reform_key 8 eight seven (calloc 16) (calloc 16) 2 reformed_eight
      reformed_seven (omega arith) (omega arith) (small_room 8 (omega arith) (omega arith))
      (small_room 7 (omega arith) (omega arith)) reform_eight reform_seven
      (λ e. (let lengths = ap length e in absurd (omega arith)))
