-- ===== src/Common/Bytes.antt =====
-- Byte buffers: `memcpy`, and numbers in the big-endian order in which they are stored.
use forestdb.Common.Tests.{ltb, leb, ◌==◌, if◌then◌else◌}
use forestdb.Common.Lists.{length, get_or, set, length-set, get_or-set, length-append}
use Prim.Native.Nat.{ℕ, zero, suc, ◌+◌, ◌-◌, ◌*◌, ◌/◌, ◌%◌, ◌^◌, ◌≤◌, ◌<◌}
use mathlib.Core.Path.{◌≡◌, refl, ap, ap₂, ◌∙◌}
use mathlib.Core.Bool.{◌&&◌}
use mathlib.Core.List.{List, [], ◌∷◌, ◌++◌}
use native.Mathlib.Nat.{pow-suc}
use native.Mathlib.Omega.{arith}

-- The `n` low bytes of a number, the highest first.
pub put_be : ℕ → ℕ → List ℕ
put_be zero v = []
put_be (suc n) v = put_be n (v / 256) ++ (v % 256 ∷ [])

pub from_be : ℕ → List ℕ → ℕ
from_be acc [] = acc
from_be acc (b ∷ bs) = from_be (acc * 256 + b) bs

-- `memcpy(buf + off, bytes, length bytes)`
unfoldable pub copy_at : List ℕ → ℕ → List ℕ → List ℕ
copy_at buf off [] = buf
copy_at buf off (b ∷ bs) = copy_at (set buf off b) (off + 1) bs

-- The `n` bytes from `off` on.
unfoldable pub slice : List ℕ → ℕ → ℕ → List ℕ
slice buf off zero = []
slice buf off (suc n) = get_or buf off 0 ∷ slice buf (off + 1) n

pub length-put_be : (n v : ℕ) → length (put_be n v) ≡ n
unfolding put_be
length-put_be zero v = refl
length-put_be (suc n) v =
    omega (arith, length-append (put_be n (v / 256)) (v % 256 ∷ []), length-put_be n (v / 256))

from_be-append : (acc : ℕ) (xs ys : List ℕ) → from_be acc (xs ++ ys) ≡ from_be (from_be acc xs) ys
unfolding from_be
from_be-append acc [] ys = refl
from_be-append acc (x ∷ xs) ys = from_be-append (acc * 256 + x) xs ys

from_be-last : (xs : List ℕ) (b : ℕ) → from_be 0 (xs ++ (b ∷ [])) ≡ from_be 0 xs * 256 + b
from_be-last xs b = from_be-append 0 xs (b ∷ []) ∙ unfold from_be in refl

-- Reading back what was written gives the number, if it fits.
pub from_be-put_be : (n v : ℕ) → v < 256 ^ n → from_be 0 (put_be n v) ≡ v
unfolding put_be
from_be-put_be zero v h = unfold from_be in omega arith
from_be-put_be (suc n) v h =
    let high : from_be 0 (put_be n (v / 256)) ≡ v / 256 =
      from_be-put_be n (v / 256) (omega (arith, pow-suc 256 n)) in
    omega (arith, from_be-last (put_be n (v / 256)) (v % 256), high)

pub length-copy_at :
    (buf : List ℕ) (off : ℕ) (bs : List ℕ) → length (copy_at buf off bs) ≡ length buf
unfolding copy_at
length-copy_at buf off [] = refl
length-copy_at buf off (b ∷ bs) = length-copy_at (set buf off b) (off + 1) bs ∙ length-set buf off b

get_or-cons :
    (b : ℕ) (bs : List ℕ) (k : ℕ)
    → get_or (b ∷ bs) k 0 ≡ (if k == 0 then b else get_or bs (k - 1) 0)
get_or-cons b bs zero = refl
get_or-cons b bs (suc k) =
    let back : k ≡ suc k - 1 = omega arith in ap (λ t. get_or bs t 0) back ∙ ground arith

pub get_or-copy_at :
    (buf : List ℕ) (off : ℕ) (bs : List ℕ) (i : ℕ)
    → off + length bs ≤ length buf
    → get_or (copy_at buf off bs) i 0
      ≡ (if leb off i && ltb i (off + length bs) then get_or bs (i - off) 0 else get_or buf i 0)
unfolding copy_at
get_or-copy_at buf off [] i h = ground arith
get_or-copy_at buf off (b ∷ bs) i h =
    let shift : i - off - 1 ≡ i - (off + 1) = omega arith in
    ground (
      arith,
      get_or-cons b bs (i - off),
      ap (λ t. get_or bs t 0) shift,
      length-set buf off b,
      get_or-set buf off i b 0,
      get_or-copy_at (set buf off b) (off + 1) bs i,
    )

-- A slice depends on its bytes alone.
pub slice_ext :
    (a b : List ℕ) (off n : ℕ)
    → ((i : ℕ) → off ≤ i → i < off + n → get_or a i 0 ≡ get_or b i 0)
    → slice a off n ≡ slice b off n
unfolding slice
slice_ext a b off zero h = refl
slice_ext a b off (suc n) h =
    ap₂ ◌∷◌ (h off (omega arith) (omega arith))
      (slice_ext a b (off + 1) n (λ i p q. h i (omega arith) (omega arith)))

slice-shift :
    (a bs : List ℕ) (off k n : ℕ)
    → k + n ≤ length bs
    → ((i : ℕ) → i < length bs → get_or a (off + i) 0 ≡ get_or bs i 0)
    → slice a (off + k) n ≡ slice bs k n
unfolding slice
slice-shift a bs off k zero h e = refl
slice-shift a bs off k (suc n) h e =
    let on : off + k + 1 ≡ off + (k + 1) = omega arith in
    ap₂ ◌∷◌ (e k (omega arith))
      (ap (λ t. slice a t n) on ∙ slice-shift a bs off (k + 1) n (omega arith) e)

slice-tail : (b : ℕ) (bs : List ℕ) (k n : ℕ) → slice (b ∷ bs) (suc k) n ≡ slice bs k n
unfolding slice
slice-tail b bs k zero = refl
slice-tail b bs k (suc n) =
    let on : suc k + 1 ≡ suc (k + 1) = omega arith in
    ap (λ l. get_or bs k 0 ∷ l) (ap (λ t. slice (b ∷ bs) t n) on ∙ slice-tail b bs (k + 1) n)

pub slice-all : (bs : List ℕ) → slice bs 0 (length bs) ≡ bs
unfolding slice
slice-all [] = refl
slice-all (b ∷ bs) =
    let one : 0 + 1 ≡ suc 0 = refl in
    ap (λ l. b ∷ l)
      (ap (λ t. slice (b ∷ bs) t (length bs)) one ∙ slice-tail b bs 0 (length bs) ∙ slice-all bs)

-- What was copied to an offset is found there.
pub slice-copy_at :
    (buf : List ℕ) (off : ℕ) (bs : List ℕ)
    → off + length bs ≤ length buf
    → slice (copy_at buf off bs) off (length bs) ≡ bs
slice-copy_at buf off bs h =
    ap (λ t. slice (copy_at buf off bs) t (length bs)) (omega arith)
    ∙ slice-shift (copy_at buf off bs) bs off 0 (length bs) (omega arith) at_offset
    ∙ slice-all bs
  where
    at_offset : (i : ℕ) → i < length bs → get_or (copy_at buf off bs) (off + i) 0 ≡ get_or bs i 0
    at_offset i k =
        let back : off + i - off ≡ i = omega arith in
        get_or-copy_at buf off bs (off + i) h ∙ ground (arith, ap (λ t. get_or bs t 0) back)

pub length-slice : (buf : List ℕ) (off n : ℕ) → length (slice buf off n) ≡ n
unfolding slice
length-slice buf off zero = refl
length-slice buf off (suc n) = ap suc (length-slice buf (off + 1) n)

pub get_or-slice :
    (buf : List ℕ) (off n i : ℕ) → i < n → get_or (slice buf off n) i 0 ≡ get_or buf (off + i) 0
unfolding slice
get_or-slice buf off zero i h = absurd (omega arith)
get_or-slice buf off (suc n) zero h =
    ap (λ t. get_or buf t 0) (let at : off ≡ off + 0 = omega arith in at)
get_or-slice buf off (suc n) (suc i) h =
    get_or-slice buf (off + 1) n i (omega arith)
    ∙ ap (λ t. get_or buf t 0) (let at : off + 1 + i ≡ off + suc i = omega arith in at)
