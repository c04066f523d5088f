-- ===== src/Common/Bits.antt =====
-- Single binary digits of the native `|` and `&`, which the tactics take for unknowns.
use Prim.Native.Nat.{
  ℕ, zero, suc, ◌+◌, ◌*◌, ◌/◌, ◌%◌, ◌^◌, ◌≤◌, min, max, bit_and, bit_or, digits, bitwise,
  bit_and-bitwise, bit_or-bitwise, ◌<◌,
}
use mathlib.Core.Path.{◌≡◌, refl, ap}
use mathlib.Core.Bool.{Bool, true, ◌&&◌}
use native.Mathlib.Nat.{pow-suc}
use native.Mathlib.Omega.{arith}

-- Digit `n` of `x`, 0 or 1.
abbrev pub bit : ℕ → ℕ → ℕ
bit x zero = x % 2
bit x (suc n) = bit (x / 2) n

module _ (keep : ℕ → ℕ) (join : ℕ → ℕ → ℕ) where
  -- Fuel above the first number adds nothing.
  digits_enough :
      (m n : ℕ) {a : ℕ} (b : ℕ) → a ≤ m → a ≤ n → digits keep join m a b ≡ digits keep join n a b
  digits_enough zero zero b p q = refl
  digits_enough zero (suc n) {a = zero} b p q = refl
  digits_enough zero (suc n) {a = suc a} b p q = absurd (omega arith)
  digits_enough (suc m) zero {a = zero} b p q = refl
  digits_enough (suc m) zero {a = suc a} b p q = absurd (omega arith)
  digits_enough (suc m) (suc n) {a = zero} b p q = refl
  digits_enough (suc m) (suc n) {a = suc a} b p q =
      let rest = digits_enough m n {a = suc a / 2} (b / 2) (omega arith) (omega arith) in rw rest

  bitwise_digit :
      (a b : ℕ)
      → bitwise keep join (suc a) b
        ≡ bitwise keep join (suc a / 2) (b / 2) * 2 + join (suc a % 2) (b % 2)
  bitwise_digit a b =
      let same = digits_enough a (suc a / 2) {a = suc a / 2} (b / 2) (omega arith) (omega arith) in
      omega (arith, same)

pub bit_or-halves : (a b : ℕ) → bit_or a b ≡ bit_or (a / 2) (b / 2) * 2 + max (a % 2) (b % 2)
bit_or-halves zero b = simp bit_or-bitwise (omega arith)
bit_or-halves (suc a) b = simp bit_or-bitwise (bitwise_digit (λ y. y) max a b)

pub bit_and-halves : (a b : ℕ) → bit_and a b ≡ bit_and (a / 2) (b / 2) * 2 + min (a % 2) (b % 2)
bit_and-halves zero b = simp bit_and-bitwise (omega arith)
bit_and-halves (suc a) b = simp bit_and-bitwise (bitwise_digit (λ y. 0) min a b)

-- A digit of `a | b` is the larger of the two digits.
pub bit-bit_or : (n a b : ℕ) → bit (bit_or a b) n ≡ max (bit a n) (bit b n)
bit-bit_or zero a b = omega (arith, bit_or-halves a b)
bit-bit_or (suc n) a b =
    let half : bit_or a b / 2 ≡ bit_or (a / 2) (b / 2) = omega (arith, bit_or-halves a b) in
    rw half (bit-bit_or n (a / 2) (b / 2))

-- A digit of `a & b` is the smaller of the two digits.
pub bit-bit_and : (n a b : ℕ) → bit (bit_and a b) n ≡ min (bit a n) (bit b n)
bit-bit_and zero a b = omega (arith, bit_and-halves a b)
bit-bit_and (suc n) a b =
    let half : bit_and a b / 2 ≡ bit_and (a / 2) (b / 2) = omega (arith, bit_and-halves a b) in
    rw half (bit-bit_and n (a / 2) (b / 2))

bit_and-zero_below : (k a : ℕ) → a ≤ k → bit_and a 0 ≡ 0
bit_and-zero_below k zero h = bit_and-bitwise 0 0
bit_and-zero_below zero (suc a) h = absurd (omega arith)
bit_and-zero_below (suc k) (suc a) h =
    omega (arith, bit_and-halves (suc a) 0, bit_and-zero_below k (suc a / 2) (omega arith))

-- `a & (1 << n)` is that digit in its place.
pub bit_and-pow : (n a : ℕ) → bit_and a (2 ^ n) ≡ bit a n * 2 ^ n
bit_and-pow zero a =
    omega (arith, bit_and-halves a 1, bit_and-zero_below (a / 2) (a / 2) (omega arith))
bit_and-pow (suc n) a =
    let tail : bit_and (a / 2) (2 ^ n) ≡ bit (a / 2) n * 2 ^ n = bit_and-pow n (a / 2) in
    let half : 2 ^ suc n / 2 ≡ 2 ^ n = omega (arith, pow-suc 2 n) in
    let even : 2 ^ suc n % 2 ≡ 0 = omega (arith, pow-suc 2 n) in
    let digit : bit_and a (2 ^ suc n) ≡ bit_and (a / 2) (2 ^ n) * 2 =
      omega (arith, bit_and-halves a (2 ^ suc n), ap (bit_and (a / 2)) half, even) in
    omega (arith, digit, tail, pow-suc 2 n, ap (λ (t : ℕ). bit (a / 2) n * t) (pow-suc 2 n))

pub bit-le_one : (n a : ℕ) → bit a n ≤ 1
bit-le_one zero a = omega arith
bit-le_one (suc n) a = bit-le_one n (a / 2)

-- Every number below a bound passes a test, by evaluation.
unfoldable pub each_below : ℕ → (ℕ → Bool) → Bool
each_below zero test = true
each_below (suc n) test = test n && each_below n test

pub each_below-holds :
    (n : ℕ) (test : ℕ → Bool) (x : ℕ) → each_below n test ≡ true → x < n → test x ≡ true
unfolding each_below
each_below-holds zero test x h p = absurd (omega arith)
each_below-holds (suc n) test x h p = ground (arith, each_below-holds n test x)
