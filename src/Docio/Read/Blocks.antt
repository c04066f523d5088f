-- ===== src/Docio/Read/Blocks.antt =====
-- What a read of `_docio_read_doc_component` in src/docio.cc gives over a block and what lies behind it.
use forestdb.Common.{
  ℕ, List, ◌<◌, ◌≡◌, none, true, ◌/◌, length, get_or, ◌^◌, ◌≤◌, ◌-◌, arith, ◌++◌,
  get_or-append_left, get_or-append_right, length-append, inl, inr, ltb, Bool-cases, subst, ap,
  Bool, false, ◌∙◌, if◌then◌else◌, refl, ◌+◌, sym, ◌*◌,
}
use forestdb.Common.Bytes.{slice, length-slice, get_or-slice, from_be}
use forestdb.FileManager.Interface.{FileOps, IsLawful}
use forestdb.FileManager.Stale.{docblk_meta_size}
use forestdb.FileManager.Stale.Covered.{byte_from}
use forestdb.Version.{ver_non_consecutive_doc}
use forestdb.Docio.{blocksize}
use forestdb.Docio.Layout.{slice-bytes_of, byte_at, next_bid, place, address}
use forestdb.Docio.Append.Blocks.{space_is}
use forestdb.Docio.Append.Places.{in_block, place_next}
use forestdb.Docio.Read.{Reader, ReadStatus, done, corrupted, read_error, next_block}
use forestdb.Docio.Read.Buffer.{IsCoherent}

-- Some block cannot be read.
abbrev pub ReadFails : (F : FileOps) → F.State → Type 0
ReadFails F s = (bid : ℕ) × (F.read s bid ≡ none)

-- Every one of the `len` bytes lies inside the file.
unfoldable pub InFile : (F : FileOps) → ℕ → F.State → ℕ → ℕ → ℕ → Type 0
InFile F real_blocksize s bid pos len =
    (k : ℕ)
    → k < len
    → place F real_blocksize s bid pos k / real_blocksize < F.pos s / real_blocksize

-- What a read of `len` bytes from `pos` of block `bid` gives.
abbrev pub Gives : (F : FileOps) → ℕ → F.State → ℕ → ℕ → ℕ → ReadStatus × List ℕ × Reader → Type 0
Gives F real_blocksize s bid pos len (done at, bytes, r) =
    (length bytes ≡ len)
    × ((k : ℕ)
        → k < len
        → get_or bytes k 0 ≡ byte_at F real_blocksize s (place F real_blocksize s bid pos k))
    × IsCoherent F real_blocksize s r
Gives F real_blocksize s bid pos len (corrupted, bytes, r) = ¬ InFile F real_blocksize s bid pos len
Gives F real_blocksize s bid pos len (read_error, bytes, r) = ReadFails F s

module _ (F : FileOps) (version real_blocksize : ℕ) (L : IsLawful F real_blocksize)
    (new : ver_non_consecutive_doc version ≡ true) (large : docblk_meta_size < real_blocksize)
    (word : real_blocksize < 2 ^ 32) (s : F.State) (end : F.pos s < 2 ^ 64) where
  abbrev space : ℕ
  space = blocksize version real_blocksize

  pub at : space ≡ real_blocksize - docblk_meta_size
  at = space_is F version real_blocksize L new large

  next_block-next_bid :
      (bid : ℕ) (buf : List ℕ)
      → ((i : ℕ) → i < real_blocksize → get_or buf i 0 ≡ F.byte s bid i)
      → next_block F version real_blocksize bid buf ≡ next_bid F real_blocksize s bid
  unfolding next_block
  next_block-next_bid bid buf h =
      ap (λ t. if t then from_be 0 (slice buf space 8) else bid + 1) new
      ∙ ap (λ t. from_be 0 (slice buf t 8)) at
      ∙ unfold next_bid in
        ap (from_be 0) (
          slice-bytes_of buf (F.byte s bid) (real_blocksize - docblk_meta_size) 8
            (λ i p q. h i (omega arith)))

  pub branch-Gives :
      (bid pos len : ℕ) (c : Bool) (a b : ReadStatus × List ℕ × Reader)
      → (c ≡ true → Gives F real_blocksize s bid pos len a)
      → (c ≡ false → Gives F real_blocksize s bid pos len b)
      → Gives F real_blocksize s bid pos len (if c then a else b)
  branch-Gives bid pos len true a b k l = k refl
  branch-Gives bid pos len false a b k l = l refl

  -- The rest of the document lies in the block.
  pub in_this_block :
      (bid pos len : ℕ) (buf : List ℕ)
      → len ≤ space - pos
      → ((i : ℕ) → i < real_blocksize → get_or buf i 0 ≡ F.byte s bid i)
      → (k : ℕ) → k < len
      → get_or (slice buf pos len) k 0
        ≡ byte_at F real_blocksize s (place F real_blocksize s bid pos k)
  in_this_block bid pos len buf room holds k p =
      get_or-slice buf pos len k p
      ∙ holds (pos + k) (omega (arith, at))
      ∙ sym (in_block F version real_blocksize large at s k bid pos k (omega (arith, at)))

  -- An index behind the block.
  behind :
      (pos k : ℕ)
      → pos ≤ space
      → space - pos ≤ k
      → real_blocksize - docblk_meta_size - pos + (k - (space - pos)) ≡ k
  behind pos k room p = omega (arith, at)

  in_next_block :
      (bid pos k : ℕ) (buf : List ℕ)
      → pos ≤ space
      → space - pos ≤ k
      → ((i : ℕ) → i < real_blocksize → get_or buf i 0 ≡ F.byte s bid i)
      → place F real_blocksize s bid pos k
        ≡ place F real_blocksize s
            (next_block F version real_blocksize bid buf)
            0
            (k - (space - pos))
  in_next_block bid pos k buf room p holds =
      ap (place F real_blocksize s bid pos) (sym (behind pos k room p))
      ∙ place_next F version real_blocksize large at s bid pos (k - (space - pos))
          (next_block F version real_blocksize bid buf) (sym (next_block-next_bid bid buf holds))

  in_blocks :
      (bid pos len : ℕ) (buf bytes : List ℕ)
      → pos ≤ space
      → ((i : ℕ) → i < real_blocksize → get_or buf i 0 ≡ F.byte s bid i)
      → ((k : ℕ)
          → k < len - (space - pos)
          → get_or bytes k 0
            ≡ byte_at F real_blocksize s
                (place F real_blocksize s (next_block F version real_blocksize bid buf) 0 k))
      → (k : ℕ) → k < len
      → get_or (slice buf pos (space - pos) ++ bytes) k 0
        ≡ byte_at F real_blocksize s (place F real_blocksize s bid pos k)
  in_blocks bid pos len buf bytes room holds same k p =
      let size = length-slice buf pos (space - pos) in
      elim (Bool-cases (ltb k (space - pos))) [
        | inl here ↦
            get_or-append_left (slice buf pos (space - pos)) bytes k 0 (ground (arith, here, size))
            ∙ in_this_block bid pos (space - pos) buf (omega arith) holds k (ground (arith, here))
        | inr later ↦
            (let more : space - pos ≤ k = ground (arith, later) in
              let sum : length (slice buf pos (space - pos)) + (k - (space - pos)) ≡ k =
                omega (arith, size, more) in
              ap (λ t. get_or (slice buf pos (space - pos) ++ bytes) t 0) (sym sum)
              ∙ get_or-append_right (slice buf pos (space - pos)) bytes (k - (space - pos)) 0
              ∙ same (k - (space - pos)) (omega (arith, more, p))
              ∙ ap (byte_at F real_blocksize s) (sym (in_next_block bid pos k buf room more holds)))
      ]

  -- A block in full, and what was read behind it.
  pub over_blocks :
      (bid pos len : ℕ) (buf : List ℕ) (out : ReadStatus × List ℕ × Reader)
      → pos ≤ space
      → space - pos < len
      → ((i : ℕ) → i < real_blocksize → get_or buf i 0 ≡ F.byte s bid i)
      → Gives F real_blocksize s
          (next_block F version real_blocksize bid buf)
          0
          (len - (space - pos))
          out
      → Gives F real_blocksize s bid pos len (out.0, slice buf pos (space - pos) ++ out.1, out.2)
  over_blocks bid pos len buf (done to, bytes, r) room more holds (size, same, c) = (
    length-append (slice buf pos (space - pos)) bytes
        ∙ omega (arith, length-slice buf pos (space - pos), size, more),
    in_blocks bid pos len buf bytes room holds same,
    c,
  )
  over_blocks bid pos len buf (corrupted, bytes, r) room more holds outside =
      unfold InFile in
      λ inside. outside (
        unfold InFile in
        λ k p.
          (let sum : space - pos + k - (space - pos) ≡ k = omega arith in
            subst (λ t. t / real_blocksize < F.pos s / real_blocksize)
              (in_next_block bid pos (space - pos + k) buf room (omega arith) holds
                ∙ ap (place F real_blocksize s (next_block F version real_blocksize bid buf) 0) sum)
              (inside (space - pos + k) (omega (arith, more, p)))))
  over_blocks bid pos len buf (read_error, bytes, r) room more holds fails = fails

  -- The link leads out of the file.
  pub out_of_file :
      (bid pos len : ℕ) (buf : List ℕ)
      → pos ≤ space
      → space - pos < len
      → ((i : ℕ) → i < real_blocksize → get_or buf i 0 ≡ F.byte s bid i)
      → F.pos s / real_blocksize ≤ next_block F version real_blocksize bid buf
      → ¬ InFile F real_blocksize s bid pos len
  unfolding byte_from InFile
  out_of_file bid pos len buf room more holds far inside =
      let next = next_block F version real_blocksize bid buf in
      let none_back : space - pos - (space - pos) ≡ 0 = omega arith in
      let here : ltb 0 (real_blocksize - docblk_meta_size - 0) ≡ true = ground arith in
      let at_next : place F real_blocksize s next 0 0 ≡ next * real_blocksize + 0 =
        rw here (omega arith) in
      let block : place F real_blocksize s bid pos (space - pos) / real_blocksize ≡ next =
        ap (λ t. t / real_blocksize)
          (in_next_block bid pos (space - pos) buf room (omega arith) holds
            ∙ ap (place F real_blocksize s next 0) none_back
            ∙ at_next)
        ∙ (address F real_blocksize next 0 (omega arith)).0 in
      let lies = inside (space - pos) more in omega (arith, block, lies, far)
