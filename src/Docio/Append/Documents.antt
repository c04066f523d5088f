-- ===== src/Docio/Append/Documents.antt =====
-- The bytes that were stored are the bytes of the document.
use forestdb.Common.{
  [], ◌∷◌, ℕ, ◌<◌, List, ◌≡◌, get_or, ◌-◌, ◌+◌, ◌/◌, suc, arith, ltb, ◌%◌, ◌∙◌, Bool-cases, ◌*◌,
  inl, ap₂, inr, ◌≤◌, ap, subst, sym,
}
use forestdb.FileManager.Interface.{FileOps}
use forestdb.FileManager.Stale.{docblk_meta_size}
use forestdb.FileManager.Stale.Covered.{byte_from}
use forestdb.Docio.{blocksize}
use forestdb.Docio.Layout.{next_bid, doc_byte, address}
use forestdb.Docio.Append.Blocks.{LinksTo, Stored}
use forestdb.Docio.Append.Loop.{Fits}
use forestdb.Docio.Append.Places.{in_block, in_next, Stored-bytes}

-- `size` bytes of the buffer are the document at `offset`, which is not an offset inside the metadata
-- of a block.
unfoldable pub IsDoc : (F : FileOps) → ℕ → F.State → ℕ → ℕ → List ℕ → Type 0
IsDoc F real_blocksize s offset size buf =
    (offset % real_blocksize ≤ real_blocksize - docblk_meta_size)
    × ((k : ℕ) → k < size → doc_byte F real_blocksize s offset k ≡ get_or buf k 0)

module _ (F : FileOps) (version real_blocksize : ℕ) (large : docblk_meta_size < real_blocksize)
    (at : blocksize version real_blocksize ≡ real_blocksize - docblk_meta_size) (s : F.State) where
  -- The byte at an address.
  abbrev byte_at : ℕ → ℕ
  byte_at a = F.byte s (a / real_blocksize) (a % real_blocksize)

  pub doc_byte-at :
      (b pos k : ℕ)
      → pos < real_blocksize
      → doc_byte F real_blocksize s (b * real_blocksize + pos) k
        ≡ byte_at (byte_from (next_bid F real_blocksize s) real_blocksize (suc k) b pos k)
  unfolding doc_byte
  doc_byte-at b pos k h =
      let (bid, off) = address F real_blocksize b pos h in
      ap₂ (λ x y. byte_at (byte_from (next_bid F real_blocksize s) real_blocksize (suc k) x y k))
        bid off

  offset_room :
      (b pos : ℕ)
      → pos ≤ real_blocksize - docblk_meta_size
      → (b * real_blocksize + pos) % real_blocksize ≤ real_blocksize - docblk_meta_size
  offset_room b pos h =
      let off = (address F real_blocksize b pos (omega arith)).1 in omega (arith, off, h)

  -- A document inside one block.
  pub block-IsDoc :
      (b pos : ℕ) (buf : List ℕ) (size : ℕ)
      → pos + size ≤ blocksize version real_blocksize
      → ((i : ℕ) → i < size → F.byte s b (pos + i) ≡ get_or buf i 0)
      → IsDoc F real_blocksize s (b * real_blocksize + pos) size buf
  unfolding IsDoc
  block-IsDoc b pos buf size room bytes = (
    offset_room b pos (omega (arith, at)),
    λ k p.
        doc_byte-at b pos k (omega (arith, at))
        ∙ in_block F version real_blocksize large at s k b pos k (omega (arith, at))
        ∙ bytes k p,
  )

  -- A document from the beginning of its first block.
  pub Stored-IsDoc :
      (blocks : List (ℕ × ℕ)) (b hash : ℕ) (buf : List ℕ) (size : ℕ)
      → Stored F version real_blocksize s buf 0 size ((b, hash) ∷ blocks)
      → Fits (blocksize version real_blocksize) size ((b, hash) ∷ blocks)
      → IsDoc F real_blocksize s (b * real_blocksize) size buf
  unfolding IsDoc
  Stored-IsDoc blocks b hash buf size st f =
      let start : b * real_blocksize ≡ b * real_blocksize + 0 = omega arith in
      (
        subst (λ t. t % real_blocksize ≤ real_blocksize - docblk_meta_size) (sym start)
            (offset_room b 0 (omega arith)),
        λ k p.
            ap (λ t. doc_byte F real_blocksize s t k) start
            ∙ doc_byte-at b 0 k (omega arith)
            ∙ Stored-bytes F version real_blocksize large at s blocks b hash buf 0 size k (suc k) st
                f p (omega arith)
            ∙ ap (λ t. get_or buf t 0) (omega arith),
      )

  behind_front :
      (blocks : List (ℕ × ℕ)) (cur pos : ℕ) (buf : List ℕ) (size k : ℕ)
      → pos < blocksize version real_blocksize
      → blocksize version real_blocksize - pos ≤ k
      → k < size
      → LinksTo (next_bid F real_blocksize s cur) blocks
      → Stored F version real_blocksize s buf
          (blocksize version real_blocksize - pos)
          (size - (blocksize version real_blocksize - pos))
          blocks
      → Fits
          (blocksize version real_blocksize)
          (size - (blocksize version real_blocksize - pos))
          blocks
      → byte_at (byte_from (next_bid F real_blocksize s) real_blocksize (suc k) cur pos k)
        ≡ get_or buf k 0
  unfolding Fits LinksTo
  behind_front [] cur pos buf size k room more p link st f = absurd (omega arith)
  behind_front ((c, hash) ∷ cs) cur pos buf size k room more p link st f =
      let front = blocksize version real_blocksize - pos in
      let same : front ≡ real_blocksize - docblk_meta_size - pos = omega (arith, at) in
      let sum : front + (k - (real_blocksize - docblk_meta_size - pos)) ≡ k = omega (arith, at) in
      ap byte_at
        (in_next F version real_blocksize large at s k cur pos k c (omega (arith, at)) link)
      ∙ Stored-bytes F version real_blocksize large at s cs c hash buf front (size - front)
          (k - (real_blocksize - docblk_meta_size - pos)) k st f (omega (arith, at))
          (omega (arith, at))
      ∙ ap (λ t. get_or buf t 0) sum

  -- A document that begins in the current block and goes on in the blocks of a list.
  pub front-IsDoc :
      (blocks : List (ℕ × ℕ)) (cur pos : ℕ) (buf : List ℕ) (size : ℕ)
      → pos < blocksize version real_blocksize
      → ((i : ℕ)
          → i < blocksize version real_blocksize - pos
          → i < size
          → F.byte s cur (pos + i) ≡ get_or buf i 0)
      → LinksTo (next_bid F real_blocksize s cur) blocks
      → Stored F version real_blocksize s buf
          (blocksize version real_blocksize - pos)
          (size - (blocksize version real_blocksize - pos))
          blocks
      → Fits
          (blocksize version real_blocksize)
          (size - (blocksize version real_blocksize - pos))
          blocks
      → IsDoc F real_blocksize s (cur * real_blocksize + pos) size buf
  unfolding IsDoc
  front-IsDoc blocks cur pos buf size room front link st f = (
    offset_room cur pos (omega (arith, at)),
    λ k p.
        doc_byte-at cur pos k (omega (arith, at))
        ∙ elim (Bool-cases (ltb k (blocksize version real_blocksize - pos))) [
          | inl here ↦
              in_block F version real_blocksize large at s k cur pos k (ground (arith, here, at))
              ∙ front k (ground (arith, here)) p
          | inr later ↦
              behind_front blocks cur pos buf size k room (ground (arith, later)) p link st f
        ],
  )
