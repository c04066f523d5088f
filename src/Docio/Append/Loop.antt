-- ===== src/Docio/Append/Loop.antt =====
-- The loop over the blocks of a document stores it in them, and in nothing else.
use forestdb.Common.{
  [], ◌∷◌, ℕ, List, ◌<◌, ◌≡◌, true, ◌≤◌, ◌^◌, arith, ◌-◌, ◌≢◌, inr, ◌⊎◌, get_or, inl, refl, ◌+◌,
  ◌∙◌, Bool, if◌then◌else◌, false, ◌==◌, leb, ◌%◌, subst,
}
use forestdb.Common.Bytes.{slice, length-slice, get_or-slice}
use forestdb.FileManager.Interface.{FileOps, IsLawful}
use forestdb.FileManager.Stale.{docblk_meta_size}
use forestdb.Version.{ver_non_consecutive_doc}
use forestdb.Docio.{Handle, blocksize}
use forestdb.Docio.Layout.{next_bid, next_bid_ext}
use forestdb.Docio.Append.{next_of, docio_fill_zero, write_meta, write_blocks}
use forestdb.Docio.Append.Blocks.{
  NotIn, Distinct, LinksTo, Stored, space_is, byte-elsewhere, byte-start, write_meta-link,
  docio_fill_zero-frame,
}

-- All blocks but the last one are filled.
unfoldable pub Fits : ℕ → ℕ → List (ℕ × ℕ) → Type 0
Fits space remaining [] = remaining ≡ 0
Fits space remaining (b ∷ []) = remaining ≤ space
Fits space remaining (b ∷ c ∷ cs) = (space ≤ remaining) × Fits space (remaining - space) (c ∷ cs)

-- What the loop leaves.
pub record IsWritten (F : FileOps) (version real_blocksize : ℕ) (s out : F.State) (buf : List ℕ)
    (offset remaining : ℕ) (blocks : List (ℕ × ℕ)) : Type 0 where
  pub stored : Stored F version real_blocksize out buf offset remaining blocks
  pub frame : (b i : ℕ) → NotIn b blocks → F.byte out b i ≡ F.byte s b i

pub link-LinksTo : (link : ℕ) (blocks : List (ℕ × ℕ)) → link ≡ next_of blocks → LinksTo link blocks
unfolding LinksTo
link-LinksTo link [] h = tt
link-LinksTo link ((c, hash) ∷ cs) h = h

pub next_small : (blocks : List (ℕ × ℕ)) → Distinct blocks → next_of blocks < 2 ^ 64
unfolding Distinct
next_small [] d = omega arith
next_small ((c, k) ∷ cs) (p, q, d) = p

-- What a test guards holds of a result that is not an error.
abbrev pub Succeeds {ℓ} :
    {H : Type 0} {S : Type 0} → (Bool × H × S → Type ℓ) → Bool × H × S → Type ℓ
Succeeds P out = out.0 ≡ true → P out

pub guard-Succeeds {ℓ} :
    {H S : Type 0} (P : Bool × H × S → Type ℓ) (c : Bool) (h : H) (s : S) (out : Bool × H × S)
    → (c ≡ true → Succeeds P out)
    → Succeeds P (if c then out else (false, h, s))
guard-Succeeds P true h s out k = k refl
guard-Succeeds P false h s out k = λ e. absurd (ground (arith, e))

pub branch-Succeeds {ℓ} :
    {H S : Type 0} (P : Bool × H × S → Type ℓ) (c : Bool) (a b : Bool × H × S)
    → (c ≡ true → Succeeds P a)
    → (c ≡ false → Succeeds P b)
    → Succeeds P (if c then a else b)
branch-Succeeds P true a b k l = k refl
branch-Succeeds P false a b k l = l refl

module _ (F : FileOps) (version real_blocksize : ℕ) (L : IsLawful F real_blocksize)
    (new : ver_non_consecutive_doc version ≡ true) (large : docblk_meta_size < real_blocksize) where
  abbrev size : ℕ
  size = blocksize version real_blocksize

  -- One block: its bytes and its link stand when the later blocks are written, none of which it is.
  block-IsWritten :
      (b hash : ℕ) (blocks : List (ℕ × ℕ)) (s meta here out : F.State) (buf : List ℕ)
      (offset remaining : ℕ)
      → NotIn b blocks
      → (next_bid F real_blocksize meta b ≡ next_of blocks)
        × ((c i : ℕ) → (c ≢ b) ⊎ (i < size) → F.byte meta c i ≡ F.byte s c i)
      → ((c i : ℕ) → (c ≢ b) ⊎ (size ≤ i) → F.byte here c i ≡ F.byte meta c i)
      → ((i : ℕ) → i < size → i < remaining → F.byte here b i ≡ get_or buf (offset + i) 0)
      → IsWritten F version real_blocksize here out buf (offset + size) (remaining - size) blocks
      → IsWritten F version real_blocksize s out buf offset remaining ((b, hash) ∷ blocks)
  block-IsWritten b hash blocks s meta here out buf offset remaining not_in (link, meta_frame)
        here_frame bytes rest =
      record {
        stored =
            unfold Stored in
            (
              (λ i p q. rest.frame b i not_in ∙ bytes i p q),
              link-LinksTo (next_bid F real_blocksize out b) blocks (
                  next_bid_ext F real_blocksize meta out b (λ i p.
                    rest.frame b i not_in
                    ∙ here_frame b i
                        (inr (omega (arith, space_is F version real_blocksize L new large))))
                  ∙ link),
              rest.stored,
            );
        frame =
            unfold NotIn in
            (λ c i n. rest.frame c i n.1 ∙ here_frame c i (inl n.0) ∙ meta_frame c i (inl n.0));
      }

  later :
      (b hash : ℕ) (blocks : List (ℕ × ℕ))
      → Distinct ((b, hash) ∷ blocks)
      → NotIn b blocks × Distinct blocks
  unfolding Distinct
  later b hash blocks (p, q, d) = (q, d)

  last_block :
      (b : ℕ × ℕ) (blocks : List (ℕ × ℕ)) (remaining : ℕ)
      → Fits size remaining (b ∷ blocks)
      → leb size remaining ≡ false
      → blocks ≡ []
  unfolding Fits
  last_block b [] remaining f less = refl
  last_block b (c ∷ cs) remaining (p, f) less = absurd (ground (arith, less, p))

  nothing_left :
      (blocks : List (ℕ × ℕ)) (h : Handle) (s : F.State) (buf : List ℕ)
      (offset remaining offset' remaining' : ℕ)
      → blocks ≡ []
      → IsWritten F version real_blocksize s
          (write_blocks F version real_blocksize blocks h s buf offset remaining).2
          buf
          offset'
          remaining'
          blocks
  unfolding write_blocks
  nothing_left [] h s buf offset remaining offset' remaining' e = record {
    stored = unfold Stored in tt;
    frame = λ b i n. refl;
  }
  nothing_left (b ∷ bs) h s buf offset remaining offset' remaining' e = absurd (ground (arith, e))

  Fits-tail :
      (b : ℕ × ℕ) (blocks : List (ℕ × ℕ)) (remaining : ℕ)
      → Fits size remaining (b ∷ blocks)
      → Fits size (remaining - size) blocks
  unfolding Fits
  Fits-tail b [] remaining f = omega arith
  Fits-tail b (c ∷ cs) remaining (p, f) = f

  -- The two ways to write a block.
  whole_block :
      (meta : F.State) (b : ℕ) (buf : List ℕ) (offset remaining : ℕ)
      → (F.write_offset meta b 0 (slice buf offset size) true).0 ≡ true
      → ((c i : ℕ)
          → (c ≢ b) ⊎ (size ≤ i)
          → F.byte (F.write_offset meta b 0 (slice buf offset size) true).1 c i ≡ F.byte meta c i)
        × ((i : ℕ)
            → i < size
            → i < remaining
            → F.byte (F.write_offset meta b 0 (slice buf offset size) true).1 b i
              ≡ get_or buf (offset + i) 0)
  whole_block meta b buf offset remaining ok = (
    λ c i place.
        byte-elsewhere F version real_blocksize L new large meta b 0 (slice buf offset size) true
          (omega (
            arith,
            length-slice buf offset size,
            large,
            space_is F version real_blocksize L new large,
          ))
          ok c i
          (elim place [
            | inl ne ↦ inl ne
            | inr more ↦ inr (inr (omega (arith, length-slice buf offset size)))
          ]),
    λ i p q.
        byte-start F version real_blocksize L new large meta b (slice buf offset size) true
          (omega (
            arith,
            length-slice buf offset size,
            large,
            space_is F version real_blocksize L new large,
          ))
          ok i (omega (arith, length-slice buf offset size))
        ∙ get_or-slice buf offset size i p,
  )

  part_block :
      (meta : F.State) (b : ℕ) (buf : List ℕ) (offset remaining : ℕ) (final : Bool)
      → remaining ≤ size
      → (F.write_offset meta b 0 (slice buf offset remaining) final).0 ≡ true
      → (docio_fill_zero F version real_blocksize
          (F.write_offset meta b 0 (slice buf offset remaining) final).1
          b
          remaining).0
        ≡ true
      → ((c i : ℕ)
          → (c ≢ b) ⊎ (size ≤ i)
          → F.byte
              (docio_fill_zero F version real_blocksize
                (F.write_offset meta b 0 (slice buf offset remaining) final).1
                b
                remaining).1
              c
              i
            ≡ F.byte meta c i)
        × ((i : ℕ)
            → i < size
            → i < remaining
            → F.byte
                (docio_fill_zero F version real_blocksize
                  (F.write_offset meta b 0 (slice buf offset remaining) final).1
                  b
                  remaining).1
                b
                i
              ≡ get_or buf (offset + i) 0)
  part_block meta b buf offset remaining final less ok zero = (
    λ c i place.
        docio_fill_zero-frame F version real_blocksize L new large _ b remaining zero c i
          (elim place [ inl ne ↦ inl ne | inr more ↦ inr (inr more) ])
        ∙ byte-elsewhere F version real_blocksize L new large meta b 0 (slice buf offset remaining)
            final
            (omega (
              arith,
              length-slice buf offset remaining,
              large,
              less,
              space_is F version real_blocksize L new large,
            ))
            ok c i
            (elim place [
              | inl ne ↦ inl ne
              | inr more ↦ inr (inr (omega (arith, length-slice buf offset remaining)))
            ]),
    λ i p q.
        docio_fill_zero-frame F version real_blocksize L new large _ b remaining zero b i
          (inr (inl q))
        ∙ byte-start F version real_blocksize L new large meta b (slice buf offset remaining) final
            (omega (
              arith,
              length-slice buf offset remaining,
              large,
              less,
              space_is F version real_blocksize L new large,
            ))
            ok i (omega (arith, length-slice buf offset remaining))
        ∙ get_or-slice buf offset remaining i q,
  )

  pub write_blocks-Succeeds :
      (blocks : List (ℕ × ℕ)) (h : Handle) (s : F.State) (buf : List ℕ) (offset remaining : ℕ)
      → Distinct blocks
      → Fits size remaining blocks
      → offset + remaining < 2 ^ 32
      → Succeeds
          (λ out. IsWritten F version real_blocksize s out.2 buf offset remaining blocks)
          (write_blocks F version real_blocksize blocks h s buf offset remaining)
  unfolding write_blocks
  write_blocks-Succeeds [] h s buf offset remaining d f w =
      (λ ok. record { stored = unfold Stored in tt; frame = λ b i n. refl })
  write_blocks-Succeeds ((b, hash) ∷ blocks) h s buf offset remaining d f w =
      let P = λ (out : Bool × Handle × F.State).
        IsWritten F version real_blocksize s out.2 buf offset remaining ((b, hash) ∷ blocks) in
      let h1 = record h { curblock = b; cur_bmp_revnum_hash = hash } in
      let meta = write_meta F version real_blocksize s b (next_of blocks) hash in
      let whole = F.write_offset meta.1 b 0 (slice buf offset size) true in
      let h2 = record h1 { curpos = size } in
      let after_whole =
        write_blocks F version real_blocksize blocks h2 whole.1 buf ((offset + size) % 2 ^ 32)
          (remaining - size) in
      let part = F.write_offset meta.1 b 0 (slice buf offset remaining) (remaining == size) in
      let h3 = record h1 { curpos = remaining } in
      let filled = docio_fill_zero F version real_blocksize part.1 b remaining in
      let after_part =
        write_blocks F version real_blocksize blocks h3 filled.1 buf ((offset + remaining) % 2 ^ 32)
          remaining in
      let in_part = if filled.0 then after_part else (false, h3, filled.1) in
      let if_whole = if whole.0 then after_whole else (false, h1, whole.1) in
      let if_part = if part.0 then in_part else (false, h1, part.1) in
      guard-Succeeds P meta.0 h1 meta.1 (if leb size remaining then if_whole else if_part) (λ good.
        branch-Succeeds P (leb size remaining) if_whole if_part
          (λ full. guard-Succeeds P whole.0 h1 whole.1 after_whole (λ ok. (λ e.
            (let (frame, bytes) = whole_block meta.1 b buf offset remaining ok in
              let fits : (offset + size) % 2 ^ 32 ≡ offset + size =
                (let within : size ≤ remaining = ground (arith, full) in
                  omega (arith, w, within)) in
              let rest =
                subst
                  (λ o.
                    IsWritten F version real_blocksize whole.1 after_whole.2 buf o
                      (remaining - size) blocks)
                  fits
                  (write_blocks-Succeeds blocks h2 whole.1 buf ((offset + size) % 2 ^ 32)
                    (remaining - size) (later b hash blocks d).1
                    (Fits-tail (b, hash) blocks remaining f)
                    (let within : size ≤ remaining = ground (arith, full) in
                      omega (arith, w, within))
                    e) in
              block-IsWritten b hash blocks s meta.1 whole.1 after_whole.2 buf offset remaining
                (later b hash blocks d).0
                (write_meta-link F version real_blocksize L new large s b (next_of blocks) hash
                  (next_small blocks (later b hash blocks d).1) good)
                frame bytes rest))))
          (λ less. guard-Succeeds P part.0 h1 part.1 in_part (λ ok.
            guard-Succeeds P filled.0 h3 filled.1 after_part (λ zero. (λ e.
              (let (frame, bytes) =
                  part_block meta.1 b buf offset remaining (remaining == size)
                    (ground (arith, less)) ok zero in
                let rest =
                  nothing_left blocks h3 filled.1 buf ((offset + remaining) % 2 ^ 32) remaining
                    (offset + size) (remaining - size)
                    (last_block (b, hash) blocks remaining f less) in
                block-IsWritten b hash blocks s meta.1 filled.1 after_part.2 buf offset remaining
                  (later b hash blocks d).0
                  (write_meta-link F version real_blocksize L new large s b (next_of blocks) hash
                    (next_small blocks (later b hash blocks d).1) good)
                  frame bytes rest))))))
