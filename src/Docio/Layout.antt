-- ===== src/Docio/Layout.antt =====
-- Where the bytes of a document lie in a file whose blocks are linked by their metadata.
use forestdb.Common.Bytes.{length-put_be, from_be-put_be, from_be, put_be, slice}
use forestdb.Docio.{blk_marker_doc, docblk_meta, ℕ}
use forestdb.FileManager.Interface.{FileOps}
use forestdb.FileManager.Stale.{docblk_meta_size}
use forestdb.FileManager.Stale.Covered.{byte_from}
use native.Mathlib.Nat.{mul-add-div_right, div-eq_of_lt, mul-add-mod_self_right, mod-eq_of_lt}
use forestdb.Common.{
  ℕ, ◌-◌, List, ◌≤◌, suc, ◌<◌, ◌*◌, [], ◌/◌, ◌+◌, length, ◌%◌, ◌≡◌, ◌∷◌, arith, ap₂, zero, get_or,
  subst, ◌∙◌, refl, ap, ◌^◌, get_or-append_left, ◌++◌,
}

unfoldable pub bytes_of : (ℕ → ℕ) → ℕ → ℕ → List ℕ
bytes_of f off zero = []
bytes_of f off (suc n) = f off ∷ bytes_of f (off + 1) n

pub bytes_of_ext :
    (f g : ℕ → ℕ) (off n : ℕ)
    → ((i : ℕ) → off ≤ i → i < off + n → f i ≡ g i)
    → bytes_of f off n ≡ bytes_of g off n
unfolding bytes_of
bytes_of_ext f g off zero h = refl
bytes_of_ext f g off (suc n) h =
    ap₂ (λ b bs. b ∷ bs) (h off (omega arith) (omega arith))
      (bytes_of_ext f g (off + 1) n (λ i p q. h i (omega arith) (omega arith)))

-- The bytes of a list that stands at `off`.
pub bytes_of-append :
    (f : ℕ → ℕ) (off : ℕ) (xs : List ℕ)
    → ((i : ℕ) → i < length xs → f (off + i) ≡ get_or xs i 0)
    → bytes_of f off (length xs) ≡ xs
unfolding bytes_of
bytes_of-append f off [] h = refl
bytes_of-append f off (x ∷ xs) h =
    ap₂ (λ b bs. b ∷ bs)
      (let here : off + 0 ≡ off = omega arith in subst (λ t. f t ≡ x) here (h 0 (omega arith)))
      (bytes_of-append f (off + 1) xs (λ i p.
        (let on : off + suc i ≡ off + 1 + i = omega arith in
          subst (λ t. f t ≡ get_or xs i 0) on (h (suc i) (omega arith)))))

-- The same bytes in a buffer.
pub slice-bytes_of :
    (buf : List ℕ) (f : ℕ → ℕ) (off n : ℕ)
    → ((i : ℕ) → off ≤ i → i < off + n → get_or buf i 0 ≡ f i)
    → slice buf off n ≡ bytes_of f off n
unfolding bytes_of slice
slice-bytes_of buf f off zero h = refl
slice-bytes_of buf f off (suc n) h =
    ap₂ (λ b bs. b ∷ bs) (h off (omega arith) (omega arith))
      (slice-bytes_of buf f (off + 1) n (λ i p q. h i (omega arith) (omega arith)))

-- The byte at an address.
abbrev pub byte_at : (F : FileOps) → ℕ → F.State → ℕ → ℕ
byte_at F real_blocksize s a = F.byte s (a / real_blocksize) (a % real_blocksize)

module _ (F : FileOps) (real_blocksize : ℕ) where
  -- The link in the metadata of a block.
  unfoldable pub next_bid : F.State → ℕ → ℕ
  next_bid s bid = from_be 0 (bytes_of (F.byte s bid) (real_blocksize - docblk_meta_size) 8)

  -- The address of byte `k` of what starts at `pos` of block `bid`.
  abbrev pub place : F.State → ℕ → ℕ → ℕ → ℕ
  place s bid pos k = byte_from (next_bid s) real_blocksize (suc k) bid pos k

  -- Byte `k` of the document at `offset`.
  unfoldable pub doc_byte : F.State → ℕ → ℕ → ℕ
  doc_byte s offset k =
      let at =
        byte_from (next_bid s) real_blocksize (suc k) (offset / real_blocksize)
          (offset % real_blocksize) k in
      F.byte s (at / real_blocksize) (at % real_blocksize)

  -- The address of a byte inside a block.
  pub address :
      (bid pos : ℕ)
      → pos < real_blocksize
      → ((bid * real_blocksize + pos) / real_blocksize ≡ bid)
        × ((bid * real_blocksize + pos) % real_blocksize ≡ pos)
  address bid pos h = (
    mul-add-div_right (omega arith) bid pos ∙ ap (λ t. bid + t) (div-eq_of_lt h) ∙ omega arith,
    mul-add-mod_self_right bid real_blocksize pos ∙ mod-eq_of_lt h,
  )

-- The link that was written with the metadata.
pub next_bid-docblk_meta :
    (F : FileOps) (real_blocksize : ℕ) (s : F.State) (bid next hash : ℕ)
    → next < 2 ^ 64
    → ((i : ℕ)
        → i < 16
        → F.byte s bid (real_blocksize - docblk_meta_size + i) ≡ get_or (docblk_meta next hash) i 0)
    → next_bid F real_blocksize s bid ≡ next
unfolding next_bid docblk_meta
next_bid-docblk_meta F real_blocksize s bid next hash h e =
    let size : length (put_be 8 next) ≡ 8 = length-put_be 8 next in
    let link : bytes_of (F.byte s bid) (real_blocksize - docblk_meta_size) (length (put_be 8 next))
        ≡ put_be 8 next =
      bytes_of-append (F.byte s bid) (real_blocksize - docblk_meta_size) (put_be 8 next) (λ i p.
        e i (omega arith)
        ∙ get_or-append_left (put_be 8 next)
            (put_be 2 hash ++ (0 ∷ 0 ∷ 0 ∷ 0 ∷ 0 ∷ blk_marker_doc ∷ [])) i 0 p) in
    ap (from_be 0) (
      subst (λ n. bytes_of (F.byte s bid) (real_blocksize - docblk_meta_size) n ≡ put_be 8 next)
        size link)
    ∙ from_be-put_be 8 next h

-- The link of a block hangs on the bytes of its metadata alone.
pub next_bid_ext :
    (F : FileOps) (real_blocksize : ℕ) (s t : F.State) (b : ℕ)
    → ((i : ℕ) → real_blocksize - docblk_meta_size ≤ i → F.byte t b i ≡ F.byte s b i)
    → next_bid F real_blocksize t b ≡ next_bid F real_blocksize s b
unfolding next_bid
next_bid_ext F real_blocksize s t b h =
    ap (from_be 0) (
      bytes_of_ext (F.byte t b) (F.byte s b) (real_blocksize - docblk_meta_size) 8 (λ i p q. h i p))
