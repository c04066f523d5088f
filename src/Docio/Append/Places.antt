-- ===== src/Docio/Append/Places.antt =====
-- Where the bytes of a list of blocks are found through the links.
use forestdb.Common.{
  [], ◌∷◌, ℕ, ◌<◌, List, ◌≡◌, get_or, ◌-◌, ◌+◌, ◌/◌, suc, arith, ltb, ◌%◌, ◌∙◌, true, Bool-cases,
  ◌*◌, inl, ap₂, inr, zero, ◌≤◌, ap, false, refl,
}
use forestdb.FileManager.Interface.{FileOps}
use forestdb.FileManager.Stale.{docblk_meta_size}
use forestdb.FileManager.Stale.Covered.{byte_from}
use forestdb.Docio.{blocksize}
use forestdb.Docio.Layout.{next_bid, address, place}
use forestdb.Docio.Append.Blocks.{LinksTo, Stored}
use forestdb.Docio.Append.Loop.{Fits}

module _ (F : FileOps) (version real_blocksize : ℕ) (large : docblk_meta_size < real_blocksize)
    (at : blocksize version real_blocksize ≡ real_blocksize - docblk_meta_size) (s : F.State) where
  -- The byte at an address.
  abbrev byte_at : ℕ → ℕ
  byte_at a = F.byte s (a / real_blocksize) (a % real_blocksize)

  pub in_block :
      (g b pos k : ℕ)
      → k < real_blocksize - docblk_meta_size - pos
      → byte_at (byte_from (next_bid F real_blocksize s) real_blocksize (suc g) b pos k)
        ≡ F.byte s b (pos + k)
  unfolding byte_from
  in_block g b pos k h =
      let here : ltb k (real_blocksize - docblk_meta_size - pos) ≡ true = ground arith in
      let (bid, off) = address F real_blocksize b (pos + k) (omega arith) in
      let sum : b * real_blocksize + pos + k ≡ b * real_blocksize + (pos + k) = omega arith in
      rw (here, sum) (ap₂ (F.byte s) bid off)

  pub in_next :
      (g b pos k c : ℕ)
      → real_blocksize - docblk_meta_size - pos ≤ k
      → next_bid F real_blocksize s b ≡ c
      → byte_from (next_bid F real_blocksize s) real_blocksize (suc g) b pos k
        ≡ byte_from
            (next_bid F real_blocksize s)
            real_blocksize
            g
            c
            0
            (k - (real_blocksize - docblk_meta_size - pos))
  unfolding byte_from
  in_next g b pos k c h e =
      let later : ltb k (real_blocksize - docblk_meta_size - pos) ≡ false = ground arith in
      rw (later, e) refl

  -- Any fuel from the index on gives the same address.
  byte_from_enough :
      (g g' b k : ℕ)
      → k ≤ g
      → k ≤ g'
      → byte_from (next_bid F real_blocksize s) real_blocksize g b 0 k
        ≡ byte_from (next_bid F real_blocksize s) real_blocksize g' b 0 k
  unfolding byte_from
  byte_from_enough zero zero b k p q = refl
  byte_from_enough zero (suc g') b k p q =
      let here : ltb k (real_blocksize - docblk_meta_size - 0) ≡ true = ground arith in rw here refl
  byte_from_enough (suc g) zero b k p q =
      let here : ltb k (real_blocksize - docblk_meta_size - 0) ≡ true = ground arith in rw here refl
  byte_from_enough (suc g) (suc g') b k p q =
      elim (Bool-cases (ltb k (real_blocksize - docblk_meta_size - 0))) [
        | inl here ↦ rw here refl
        | inr later ↦ rw later (
            byte_from_enough g g' (next_bid F real_blocksize s b)
              (k - (real_blocksize - docblk_meta_size - 0)) (ground (arith, later))
              (ground (arith, later)))
      ]

  -- What lies behind a block lies where the next block says.
  pub place_next :
      (b pos k c : ℕ)
      → next_bid F real_blocksize s b ≡ c
      → place F real_blocksize s b pos (real_blocksize - docblk_meta_size - pos + k)
        ≡ place F real_blocksize s c 0 k
  place_next b pos k c e =
      let front = real_blocksize - docblk_meta_size - pos in
      let back : front + k - front ≡ k = omega arith in
      in_next (front + k) b pos (front + k) c (omega arith) e
      ∙ ap (byte_from (next_bid F real_blocksize s) real_blocksize (front + k) c 0) back
      ∙ byte_from_enough (front + k) (suc k) c k (omega arith) (omega arith)

  first_byte :
      (b offset remaining k : ℕ) (buf : List ℕ)
      → ((i : ℕ)
          → i < blocksize version real_blocksize
          → i < remaining
          → F.byte s b i ≡ get_or buf (offset + i) 0)
      → k < blocksize version real_blocksize
      → k < remaining
      → F.byte s b (0 + k) ≡ get_or buf (offset + k) 0
  first_byte b offset remaining k buf bytes p q = ap (F.byte s b) (omega arith) ∙ bytes k p q

  pub Stored-bytes :
      (blocks : List (ℕ × ℕ)) (b hash : ℕ) (buf : List ℕ) (offset remaining k g : ℕ)
      → Stored F version real_blocksize s buf offset remaining ((b, hash) ∷ blocks)
      → Fits (blocksize version real_blocksize) remaining ((b, hash) ∷ blocks)
      → k < remaining
      → k < g
      → byte_at (byte_from (next_bid F real_blocksize s) real_blocksize g b 0 k)
        ≡ get_or buf (offset + k) 0
  unfolding Stored Fits LinksTo
  Stored-bytes blocks b hash buf offset remaining k zero st f p q = absurd (omega arith)
  Stored-bytes [] b hash buf offset remaining k (suc g) (bytes, link, rest) f p q =
      in_block g b 0 k (omega (arith, at, f, p))
      ∙ first_byte b offset remaining k buf bytes (omega arith) p
  Stored-bytes ((c, hash') ∷ cs) b hash buf offset remaining k (suc g) (bytes, link, rest) (full, f)
        p q =
      elim (Bool-cases (ltb k (real_blocksize - docblk_meta_size - 0))) [
        | inl here ↦
            in_block g b 0 k (ground (arith, here))
            ∙ first_byte b offset remaining k buf bytes (ground (arith, here, at)) p
        | inr later ↦
            (let more : real_blocksize - docblk_meta_size - 0 ≤ k = ground (arith, later) in
              let sum : offset
                    + blocksize version real_blocksize
                    + (k - (real_blocksize - docblk_meta_size - 0))
                  ≡ offset + k =
                omega (arith, at, more) in
              ap byte_at (in_next g b 0 k c more link)
              ∙ Stored-bytes cs c hash' buf (offset + blocksize version real_blocksize)
                  (remaining - blocksize version real_blocksize)
                  (k - (real_blocksize - docblk_meta_size - 0)) g rest f
                  (omega (arith, at, more, full)) (omega (arith, large, more))
              ∙ ap (λ t. get_or buf t 0) sum)
      ]
