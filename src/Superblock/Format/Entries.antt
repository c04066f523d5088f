-- ===== src/Superblock/Format/Entries.antt =====
-- Lists of entries, and reading as a function of the bytes that are read.
use forestdb.Superblock.Format.{get_u64, read_values, entries}
use forestdb.Common.Bytes.{from_be, slice_ext}
use forestdb.Common.{
  ℕ, List, ◌+◌, length, ◌<◌, get_or, ◌≡◌, ◌++◌, ◌∷◌, ap, ◌≤◌, suc, ◌*◌, ◌∙◌, arith, ap₂, [], zero,
  refl,
}

pub length-entries : (n i : ℕ) (l : List ℕ) → length (entries n i l) ≡ n
unfolding entries
length-entries zero i l = refl
length-entries (suc n) i l = omega (arith, length-entries n (i + 1) l)

-- Behind a prefix, entries are those of the rest.
entries-cons : (n i : ℕ) (x : ℕ) (l : List ℕ) → entries n (i + 1) (x ∷ l) ≡ entries n i l
unfolding entries
entries-cons zero i x l = refl
entries-cons (suc n) i x l =
    let up : i + 1 ≡ suc i = omega arith in
    ap₂ ◌∷◌ (ap (λ t. get_or (x ∷ l) t 0) up) (entries-cons n (i + 1) x l)

pub entries-append :
    (n k : ℕ) (xs ys : List ℕ) → entries n (length xs + k) (xs ++ ys) ≡ entries n k ys
entries-append n k [] ys = ap (λ t. entries n t ys) (omega arith)
entries-append n k (x ∷ xs) ys =
    ap (λ t. entries n t (x ∷ (xs ++ ys))) (omega arith)
    ∙ entries-cons n (length xs + k) x (xs ++ ys)
    ∙ entries-append n k xs ys

pub entries-all : (xs ys : List ℕ) → entries (length xs) 0 (xs ++ ys) ≡ xs
unfolding entries
entries-all [] ys = refl
entries-all (x ∷ xs) ys =
    ap (λ l. x ∷ l) (entries-cons (length xs) 0 x (xs ++ ys) ∙ entries-all xs ys)

pub entries-whole : (xs : List ℕ) → entries (length xs) 0 xs ≡ xs
unfolding entries
entries-whole [] = refl
entries-whole (x ∷ xs) = ap (λ l. x ∷ l) (entries-cons (length xs) 0 x xs ∙ entries-whole xs)

-- Reading depends on the bytes below the checksum alone.
pub get_u64_ext :
    (a b : List ℕ) (off n : ℕ)
    → ((i : ℕ) → i < n → get_or a i 0 ≡ get_or b i 0)
    → off + 8 ≤ n
    → get_u64 a off ≡ get_u64 b off
unfolding get_u64
get_u64_ext a b off n e h = ap (from_be 0) (slice_ext a b off 8 (λ i p q. e i (omega arith)))

pub read_values_ext :
    (a b : List ℕ) (k off n : ℕ)
    → ((i : ℕ) → i < n → get_or a i 0 ≡ get_or b i 0)
    → off + 8 * k ≤ n
    → read_values k a off ≡ read_values k b off
unfolding read_values
read_values_ext a b zero off n e h = refl
read_values_ext a b (suc k) off n e h =
    ap₂ ◌∷◌ (get_u64_ext a b off n e (omega arith))
      (read_values_ext a b k (off + 8) n e (omega arith))
