-- ===== src/Superblock/Barrier/Weights.antt =====
-- Sums over the threads: how many of them are counted in each shared variable.
use forestdb.Superblock.Barrier.{Place, idle, ℕ}
use forestdb.Common.{
  ℕ, List, ◌≡◌, ◌∷◌, ◌+◌, ◌<◌, ◌≤◌, replicate, arith, suc, [], length, zero, set, get_or, ◌≢◌, ap,
  refl,
}

module _ (w : Place → ℕ) where
  pub total : List Place → ℕ
  total [] = 0
  total (p ∷ ps) = w p + total ps

  pub total-set :
      (ps : List Place) (i : ℕ) (q : Place)
      → i < length ps
      → total (set ps i q) + w (get_or ps i idle) ≡ total ps + w q
  unfolding total
  total-set [] i q h = absurd (omega arith)
  total-set (p ∷ ps) zero q h = omega arith
  total-set (p ∷ ps) (suc i) q h = omega (arith, total-set ps i q (omega arith))

  pub total-one : (ps : List Place) (i : ℕ) → i < length ps → w (get_or ps i idle) ≤ total ps
  unfolding total
  total-one [] i h = absurd (omega arith)
  total-one (p ∷ ps) zero h = omega arith
  total-one (p ∷ ps) (suc i) h = omega (arith, total-one ps i (omega arith))

  pub total-two :
      (ps : List Place) (i j : ℕ)
      → i < length ps
      → j < length ps
      → i ≢ j
      → w (get_or ps i idle) + w (get_or ps j idle) ≤ total ps
  unfolding total
  total-two [] i j h k n = absurd (omega arith)
  total-two (p ∷ ps) zero zero h k n = absurd (n refl)
  total-two (p ∷ ps) zero (suc j) h k n = omega (arith, total-one ps j (omega arith))
  total-two (p ∷ ps) (suc i) zero h k n = omega (arith, total-one ps i (omega arith))
  total-two (p ∷ ps) (suc i) (suc j) h k n =
      omega (arith, total-two ps i j (omega arith) (omega arith) (λ e. n (ap suc e)))

  pub total-replicate : (n : ℕ) → w idle ≡ 0 → total (replicate n idle) ≡ 0
  unfolding total
  total-replicate zero h = refl
  total-replicate (suc n) h = omega (arith, total-replicate n h)

pub total_mono :
    (v w : Place → ℕ) (ps : List Place) → ((p : Place) → v p ≤ w p) → total v ps ≤ total w ps
unfolding total
total_mono v w [] h = omega arith
total_mono v w (p ∷ ps) h = omega (arith, h p, total_mono v w ps h)

pub total_sum :
    (u v w : Place → ℕ) (ps : List Place)
    → ((p : Place) → u p + v p ≤ w p)
    → total u ps + total v ps ≤ total w ps
unfolding total
total_sum u v w [] h = omega arith
total_sum u v w (p ∷ ps) h = omega (arith, h p, total_sum u v w ps h)

-- A weight that vanishes on all threads has no sum.
pub total_zero :
    (w : Place → ℕ) (ps : List Place)
    → ((i : ℕ) → i < length ps → w (get_or ps i idle) ≡ 0)
    → total w ps ≡ 0
unfolding total
total_zero w [] h = refl
total_zero w (p ∷ ps) h =
    omega (arith, h 0 (omega arith), total_zero w ps (λ i k. h (suc i) (omega arith)))
