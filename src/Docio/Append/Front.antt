-- ===== src/Docio/Append/Front.antt =====
-- A document that begins in the current block, or in a new one.
use forestdb.Common.{
  [], ◌∷◌, ℕ, ◌≡◌, true, ◌<◌, ◌^◌, ◌-◌, List, arith, ◌+◌, Bool-cases, get_or, ◌*◌, inr, inl, ◌∙◌,
  subst, ◌==◌, false, length, ap,
}
use forestdb.Common.Bytes.{slice, length-slice, get_or-slice}
use forestdb.FileManager.Interface.{FileOps, IsLawful}
use forestdb.FileManager.Stale.{docblk_meta_size}
use forestdb.Version.{ver_non_consecutive_doc}
use forestdb.Docio.{Handle, blocksize, sub32}
use forestdb.Docio.Append.{
  next_of, write_meta, write_blocks, write_front, finish, from_current, from_new,
}
use forestdb.Docio.Append.Blocks.{
  NotIn, Distinct, LinksTo, Stored, space_is, byte-elsewhere, byte-here, write_meta-link,
}
use forestdb.Docio.Append.Loop.{Fits, next_small, write_blocks-Succeeds, link-LinksTo}
use forestdb.Docio.Append.Failure.{Reaches, write_front-Reaches, write_front_fails}
use forestdb.Docio.Append.Documents.{IsDoc, Stored-IsDoc, front-IsDoc}
use forestdb.Docio.Append.Stores.{Appends, guard-Appends, finish-Appends}
use forestdb.Docio.Layout.{next_bid, next_bid_ext}

module _ (F : FileOps) (version real_blocksize : ℕ) (L : IsLawful F real_blocksize)
    (new : ver_non_consecutive_doc version ≡ true) (large : docblk_meta_size < real_blocksize)
    (word : real_blocksize < 2 ^ 32) (begin : F.State) where
  abbrev space : ℕ
  space = blocksize version real_blocksize

  at : space ≡ real_blocksize - docblk_meta_size
  at = space_is F version real_blocksize L new large

  -- What the front part leaves in the current block.
  record IsFront (h : Handle) (next : ℕ) (buf : List ℕ) (out : F.State) : Type 0 where
    link : next_bid F real_blocksize out h.curblock ≡ next
    bytes :
        (i : ℕ) → i < sub32 space h.curpos → F.byte out h.curblock (h.curpos + i) ≡ get_or buf i 0

  write_front-IsFront :
      (h : Handle) (s : F.State) (next : ℕ) (buf : List ℕ)
      → h.curpos < space
      → next < 2 ^ 64
      → (write_front F version real_blocksize h s next buf).0 ≡ true
      → IsFront h next buf (write_front F version real_blocksize h s next buf).1
  unfolding write_front
  write_front-IsFront h s next buf room small =
      elim (Bool-cases
        (write_meta F version real_blocksize s h.curblock next h.cur_bmp_revnum_hash).0) [
          | inr f ↦ rw f (λ e. absurd (ground (arith, e)))
          | inl t ↦
              (let some_room : (sub32 space h.curpos == 0) ≡ false = ground (arith, at) in
                let meta =
                  write_meta F version real_blocksize s h.curblock next h.cur_bmp_revnum_hash in
                let offset = sub32 space h.curpos in
                let end : h.curpos + length (slice buf 0 offset) ≡ space =
                  omega (arith, at, length-slice buf 0 offset) in
                let part : length (slice buf 0 offset) < real_blocksize =
                  omega (arith, at, large, length-slice buf 0 offset) in
                rw (t, some_room)
                  (λ ok. record {
                    link =
                        next_bid_ext F real_blocksize meta.1 _ h.curblock (λ i p.
                          byte-elsewhere F version real_blocksize L new large meta.1 h.curblock
                            h.curpos (slice buf 0 offset) true part ok h.curblock i
                            (inr (inr (omega (arith, at, end)))))
                        ∙ (write_meta-link F version real_blocksize L new large s h.curblock next
                            h.cur_bmp_revnum_hash small t).0;
                    bytes = λ i p.
                        byte-here F version real_blocksize L new large meta.1 h.curblock h.curpos
                          (slice buf 0 offset) true part ok i
                          (omega (arith, length-slice buf 0 offset))
                        ∙ get_or-slice buf 0 offset i p
                        ∙ ap (λ t. get_or buf t 0) (omega arith);
                  }))
        ]

  front-IsDoc-offset :
      (s : F.State) (blocks : List (ℕ × ℕ)) (cur pos : ℕ) (buf : List ℕ) (size offset : ℕ)
      → offset ≡ space - pos
      → pos < space
      → ((i : ℕ) → i < offset → F.byte s cur (pos + i) ≡ get_or buf i 0)
      → LinksTo (next_bid F real_blocksize s cur) blocks
      → Stored F version real_blocksize s buf offset (size - offset) blocks
      → Fits space (size - offset) blocks
      → IsDoc F real_blocksize s (cur * real_blocksize + pos) size buf
  front-IsDoc-offset s blocks cur pos buf size offset e room bytes link st f =
      front-IsDoc F version real_blocksize large at s blocks cur pos buf size room
        (λ i p q. bytes i (omega (arith, e))) link
        (subst (λ o. Stored F version real_blocksize s buf o (size - o) blocks) e st)
        (subst (λ o. Fits space (size - o) blocks) e f)

  pub from_current-Appends :
      (blocks : List (ℕ × ℕ)) (h : Handle) (s : F.State) (size : ℕ) (buf : List ℕ)
      → h.curpos < space
      → NotIn h.curblock blocks
      → Distinct blocks
      → Fits space (size - sub32 space h.curpos) blocks
      → size < 2 ^ 32
      → space - h.curpos < size
      → Reaches F begin s
      → Appends F begin real_blocksize size buf
          (from_current F version real_blocksize blocks h s size buf (next_of blocks))
  from_current-Appends blocks h s size buf room not_in d f small more r =
      let offset = sub32 space h.curpos in
      let front = write_front F version real_blocksize h s (next_of blocks) buf in
      guard-Appends F version real_blocksize L new large word begin size buf front.0
        (finish F version real_blocksize blocks h front.1 buf offset (size - offset)
          (h.curblock * real_blocksize + h.curpos))
        h front.1 (write_front_fails F version real_blocksize begin h s (next_of blocks) buf r)
        (λ ok.
          (let head = write_front-IsFront h s (next_of blocks) buf room (next_small blocks d) ok in
            finish-Appends F version real_blocksize L new large word begin size buf blocks h front.1
              offset (size - offset) (h.curblock * real_blocksize + h.curpos)
              (write_front-Reaches F version real_blocksize begin h s (next_of blocks) buf r)
              (λ e.
                (let w =
                    write_blocks-Succeeds F version real_blocksize L new large blocks h front.1 buf
                      offset (size - offset) d f (omega (arith, at, small, more)) e in
                  front-IsDoc-offset
                    (write_blocks F version real_blocksize blocks h front.1 buf offset
                      (size - offset)).2
                    blocks h.curblock h.curpos buf size offset (omega (arith, at)) room
                    (λ i p. w.frame h.curblock (h.curpos + i) not_in ∙ head.bytes i p)
                    (link-LinksTo _ blocks (
                      next_bid_ext F real_blocksize front.1 _ h.curblock
                        (λ i p. w.frame h.curblock i not_in)
                      ∙ head.link))
                    w.stored f))))

  pub from_new-Appends :
      (blocks : List (ℕ × ℕ)) (h : Handle) (s : F.State) (size : ℕ) (buf : List ℕ)
      → 0 < size
      → Distinct blocks
      → Fits space size blocks
      → size < 2 ^ 32
      → Reaches F begin s
      → Appends F begin real_blocksize size buf
          (from_new F version real_blocksize blocks h s size buf (next_of blocks))
  from_new-Appends [] h s size buf p d f small r = absurd (unfold Fits in omega arith)
  from_new-Appends ((b, hash) ∷ blocks) h s size buf p d f small r =
      finish-Appends F version real_blocksize L new large word begin size buf ((b, hash) ∷ blocks) h
        s 0 size (b * real_blocksize) r
        (λ e.
          (let w =
              write_blocks-Succeeds F version real_blocksize L new large ((b, hash) ∷ blocks) h s
                buf 0 size d f (omega arith) e in
            Stored-IsDoc F version real_blocksize large at _ blocks b hash buf size w.stored f))
