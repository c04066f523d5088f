-- ===== src/Superblock/Alloc/Blocks.antt =====
-- The reusable blocks of a bitmap as an ascending list: what an allocation pass hands out.
use forestdb.Superblock.Bitmap.{is_bmp_set}
use forestdb.Common.{
  List, ℕ, ◌≤◌, [], ◌<◌, ◌-◌, ◌≡◌, suc, ◌+◌, if◌then◌else◌, false, arith, ap, ◌∷◌, Bool-cases, zero,
  ltb, inl, ltb→lt, ◌∙◌, inr, sym, length,
}

module _ (bmp : List ℕ) where
  -- The set ones among the `n` blocks from `b` on.
  unfoldable pub set_blocks : ℕ → ℕ → List ℕ
  set_blocks zero b = []
  set_blocks (suc n) b = if is_bmp_set bmp b then b ∷ set_blocks n (b + 1) else set_blocks n (b + 1)

  -- The set blocks from `b` up to `size`.
  abbrev pub blocks : ℕ → ℕ → List ℕ
  blocks size b = set_blocks (size - b) b

  pub blocks_end : (size b : ℕ) → size ≤ b → blocks size b ≡ []
  unfolding set_blocks
  blocks_end size b h = let none_left : size - b ≡ 0 = omega arith in rw none_left

  pub blocks_step :
      (size b : ℕ)
      → b < size
      → blocks size b ≡ (if is_bmp_set bmp b then b ∷ blocks size (b + 1) else blocks size (b + 1))
  unfolding set_blocks
  blocks_step size b h = let more : size - b ≡ suc (size - (b + 1)) = omega arith in rw more

  pub blocks_skip :
      (size n b : ℕ)
      → ((c : ℕ) → b ≤ c → c < b + n → c < size → is_bmp_set bmp c ≡ false)
      → blocks size b ≡ blocks size (b + n)
  blocks_skip size zero b clear = ap (blocks size) (omega arith)
  blocks_skip size (suc n) b clear =
      let on : b + 1 + n ≡ b + suc n = omega arith in
      let rest = blocks_skip size n (b + 1) (λ c p q r. clear c (omega arith) (omega arith) r) in
      elim (Bool-cases (ltb b size)) [
        | inl more ↦
            blocks_step size b (ltb→lt b size more)
            ∙ rw (clear b (omega arith) (omega arith) (ltb→lt b size more))
                (rest ∙ ap (blocks size) on)
        | inr out ↦
            let low : size ≤ b = ground arith in
            blocks_end size b low ∙ sym (blocks_end size (b + suc n) (omega arith))
      ]

  set_blocks_least : (n b x : ℕ) (l : List ℕ) → set_blocks n b ≡ x ∷ l → b ≤ x
  unfolding set_blocks
  set_blocks_least zero b x l h = absurd (omega (arith, ap length h))
  set_blocks_least (suc n) b x l h = elim (Bool-cases (is_bmp_set bmp b)) [
    | inl here ↦ ground arith
    | inr clear ↦ omega (arith, set_blocks_least n (b + 1) x l (rw clear at h))
  ]

  pub blocks_least : (size b x : ℕ) (l : List ℕ) → blocks size b ≡ x ∷ l → b ≤ x
  blocks_least size b x l h = set_blocks_least (size - b) b x l h
