-- ===== src/Docio/Append/Blocks.antt =====
-- The loop over the blocks of a document stores it in them, and in nothing else.
use forestdb.FileManager.Interface.{FileOps, IsLawful}
use forestdb.FileManager.Stale.{docblk_meta_size}
use forestdb.Version.{ver_non_consecutive_doc}
use forestdb.Common.{
  [], ◌∷◌, List, ℕ, ◌≡◌, true, ◌<◌, ◌≢◌, ◌-◌, ◌^◌, Bool, ◌⊎◌, ap, length, ◌≤◌, false, ◌+◌,
  if◌then◌else◌, Bool-cases, inl, get_or, ◌∙◌, leb, inr, arith, refl, calloc, subst,
}
use forestdb.Docio.{length-docblk_meta, docio_length_size, blocksize, docblk_meta, List, ℕ}
use forestdb.Docio.Layout.{next_bid, next_bid-docblk_meta}
use forestdb.Docio.Append.{docio_fill_zero, write_meta}

-- No block of the list is `b`; no block stands in the list twice; all fit into 64 bits.
unfoldable pub NotIn : ℕ → List (ℕ × ℕ) → Type 0
NotIn b [] = Unit
NotIn b ((c, hash) ∷ cs) = (b ≢ c) × NotIn b cs

unfoldable pub Distinct : List (ℕ × ℕ) → Type 0
unfolding NotIn
Distinct [] = Unit
Distinct ((c, hash) ∷ cs) = (c < 2 ^ 64) × NotIn c cs × Distinct cs

-- The link of a block leads to the first of the blocks that follow.
unfoldable pub LinksTo : ℕ → List (ℕ × ℕ) → Type 0
LinksTo link [] = Unit
LinksTo link ((c, hash) ∷ cs) = link ≡ c

module _ (F : FileOps) (version real_blocksize : ℕ) where
  abbrev space : ℕ
  space = blocksize version real_blocksize

  -- `remaining` bytes from `offset` of the buffer lie in linked blocks.
  unfoldable pub Stored : F.State → List ℕ → ℕ → ℕ → List (ℕ × ℕ) → Type 0
  Stored s buf offset remaining [] = Unit
  Stored s buf offset remaining ((b, hash) ∷ bs) =
      ((i : ℕ) → i < space → i < remaining → F.byte s b i ≡ get_or buf (offset + i) 0)
      × LinksTo (next_bid F real_blocksize s b) bs
      × Stored s buf (offset + space) (remaining - space) bs

  module _ (L : IsLawful F real_blocksize) (new : ver_non_consecutive_doc version ≡ true)
      (large : docblk_meta_size < real_blocksize) where
    pub space_is : space ≡ real_blocksize - docblk_meta_size
    unfolding blocksize
    space_is = ap (λ t. real_blocksize - (if t then docblk_meta_size else 1)) new

    -- A write to a block leaves other blocks alone, and other places of the block.
    pub byte-elsewhere :
        (s : F.State) (bid pos : ℕ) (bytes : List ℕ) (final : Bool)
        → length bytes < real_blocksize
        → (F.write_offset s bid pos bytes final).0 ≡ true
        → (b i : ℕ) → (b ≢ bid) ⊎ ((i < pos) ⊎ (pos + length bytes ≤ i))
        → F.byte (F.write_offset s bid pos bytes final).1 b i ≡ F.byte s b i
    byte-elsewhere s bid pos bytes final part ok b i (inl ne) =
        L.byte-write_offset s bid pos bytes final part ok b i ∙ ground arith
    byte-elsewhere s bid pos bytes final part ok b i (inr (inl less)) =
        L.byte-write_offset s bid pos bytes final part ok b i ∙ ground arith
    byte-elsewhere s bid pos bytes final part ok b i (inr (inr more)) =
        L.byte-write_offset s bid pos bytes final part ok b i ∙ ground arith

    pub byte-here :
        (s : F.State) (bid pos : ℕ) (bytes : List ℕ) (final : Bool)
        → length bytes < real_blocksize
        → (F.write_offset s bid pos bytes final).0 ≡ true
        → (i : ℕ) → i < length bytes
        → F.byte (F.write_offset s bid pos bytes final).1 bid (pos + i) ≡ get_or bytes i 0
    byte-here s bid pos bytes final part ok i h =
        L.byte-write_offset s bid pos bytes final part ok bid (pos + i)
        ∙ (let back : pos + i - pos ≡ i = omega arith in rw back (ground arith))

    pub byte-start :
        (s : F.State) (bid : ℕ) (bytes : List ℕ) (final : Bool)
        → length bytes < real_blocksize
        → (F.write_offset s bid 0 bytes final).0 ≡ true
        → (i : ℕ) → i < length bytes
        → F.byte (F.write_offset s bid 0 bytes final).1 bid i ≡ get_or bytes i 0
    byte-start s bid bytes final part ok i h =
        let at : 0 + i ≡ i = omega arith in
        subst (λ t. F.byte (F.write_offset s bid 0 bytes final).1 bid t ≡ get_or bytes i 0) at
          (byte-here s bid 0 bytes final part ok i h)

    -- The metadata of a block: its link, and nothing below it.
    pub write_meta-link :
        (s : F.State) (bid next hash : ℕ)
        → next < 2 ^ 64
        → (write_meta F version real_blocksize s bid next hash).0 ≡ true
        → (next_bid F real_blocksize (write_meta F version real_blocksize s bid next hash).1 bid
            ≡ next)
          × ((b i : ℕ)
              → (b ≢ bid) ⊎ (i < space)
              → F.byte (write_meta F version real_blocksize s bid next hash).1 b i ≡ F.byte s b i)
    unfolding write_meta
    write_meta-link s bid next hash h =
        rw (new, space_is)
          (λ ok. (
            next_bid-docblk_meta F real_blocksize _ bid next hash h (λ i p.
                byte-here s bid (real_blocksize - docblk_meta_size) (docblk_meta next hash) false
                  (omega (arith, large, length-docblk_meta next hash)) ok i
                  (omega (arith, length-docblk_meta next hash))),
            λ b i place.
                byte-elsewhere s bid (real_blocksize - docblk_meta_size) (docblk_meta next hash)
                  false (omega (arith, large, length-docblk_meta next hash)) ok b i
                  (elim place [ inl ne ↦ inl ne | inr less ↦ inr (inl less) ]),
          ))

    -- Zeros behind the document: in its block, below the metadata.
    pub docio_fill_zero-frame :
        (s : F.State) (bid pos : ℕ)
        → (docio_fill_zero F version real_blocksize s bid pos).0 ≡ true
        → (b i : ℕ) → (b ≢ bid) ⊎ ((i < pos) ⊎ (space ≤ i))
        → F.byte (docio_fill_zero F version real_blocksize s bid pos).1 b i ≡ F.byte s b i
    unfolding docio_fill_zero
    docio_fill_zero-frame s bid pos = elim (Bool-cases (leb (pos + docio_length_size) space)) [
      | inl t ↦ rw t (λ ok b i place.
          byte-elsewhere s bid pos (calloc docio_length_size) false (omega (arith, large)) ok b i
            (elim place [
              | inl ne ↦ inl ne
              | inr (inl less) ↦ inr (inl less)
              | inr (inr more) ↦ inr (inr (ground (arith, t, more)))
            ]))
      | inr f ↦ rw f (λ ok b i place. refl)
    ]
