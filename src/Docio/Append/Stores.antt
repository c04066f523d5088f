-- ===== src/Docio/Append/Stores.antt =====
-- `docio_append_doc_raw` stores the document.
use forestdb.Common.{
  ℕ, ◌≡◌, List, Option, true, ap, ◌*◌, some, ◌<◌, ◌≤◌, ◌^◌, none, Bool, refl, arith, ◌-◌,
  Bool-cases, ◌+◌, if◌then◌else◌, inl, blk_not_found, inr, ◌==◌, false, sub64, ◌∙◌, get_or,
}
use forestdb.Common.Bytes.{slice, length-slice, get_or-slice}
use forestdb.FileManager.Interface.{FileOps, IsLawful}
use forestdb.FileManager.Stale.{docblk_meta_size}
use forestdb.Version.{ver_non_consecutive_doc}
use forestdb.Docio.{Handle, blocksize}
use forestdb.Docio.Append.{docio_fill_zero, write_meta, write_blocks, append_here, finish}
use forestdb.Docio.Append.Blocks.{space_is, byte-here, docio_fill_zero-frame}
use forestdb.Docio.Append.Loop.{Succeeds}
use forestdb.Docio.Append.Failure.{
  Reaches, then_write, WriteFails, write_fails, write_meta-Reaches, write_meta_fails,
  docio_fill_zero_fails, write_blocks_fails,
}
use forestdb.Docio.Append.Documents.{IsDoc, block-IsDoc}

-- From the state `begin` on, a document is stored at the offset that is returned; without one, a
-- write has failed on the way.
abbrev pub Appends : (F : FileOps) → F.State → ℕ → ℕ → List ℕ → Option ℕ × Handle × F.State → Type 0
Appends F begin real_blocksize size buf (some offset, h, s) =
    IsDoc F real_blocksize s offset size buf
Appends F begin real_blocksize size buf (none, h, s) = WriteFails F begin

module _ (F : FileOps) (version real_blocksize : ℕ) (L : IsLawful F real_blocksize)
    (new : ver_non_consecutive_doc version ≡ true) (large : docblk_meta_size < real_blocksize)
    (word : real_blocksize < 2 ^ 32) (begin : F.State) where
  abbrev space : ℕ
  space = blocksize version real_blocksize

  at : space ≡ real_blocksize - docblk_meta_size
  at = space_is F version real_blocksize L new large

  pub guard-Appends :
      (size : ℕ) (buf : List ℕ) (c : Bool) (out : Option ℕ × Handle × F.State) (h : Handle)
      (s : F.State)
      → (c ≡ false → WriteFails F begin)
      → (c ≡ true → Appends F begin real_blocksize size buf out)
      → Appends F begin real_blocksize size buf (if c then out else (none, h, s))
  guard-Appends size buf true out h s w k = k refl
  guard-Appends size buf false out h s w k = w refl

  pub finish-Appends :
      (size : ℕ) (buf : List ℕ) (blocks : List (ℕ × ℕ)) (h : Handle) (s : F.State)
      (offset remaining startpos : ℕ)
      → Reaches F begin s
      → Succeeds
          (λ out. IsDoc F real_blocksize out.2 startpos size buf)
          (write_blocks F version real_blocksize blocks h s buf offset remaining)
      → Appends F begin real_blocksize size buf
          (finish F version real_blocksize blocks h s buf offset remaining startpos)
  unfolding finish
  finish-Appends size buf blocks h s offset remaining startpos r k =
      elim (Bool-cases (write_blocks F version real_blocksize blocks h s buf offset remaining).0) [
        | inl t ↦ rw t (k t)
        | inr f ↦
            rw f (
              write_blocks_fails F version real_blocksize begin blocks h s buf offset remaining r f)
      ]

  pub append_here-Appends :
      (h : Handle) (s : F.State) (size : ℕ) (buf : List ℕ)
      → Reaches F begin s
      → h.curpos + size ≤ space
      → Appends F begin real_blocksize size buf (append_here F version real_blocksize h s size buf)
  unfolding append_here
  append_here-Appends h s size buf reached room =
      let meta =
        write_meta F version real_blocksize s h.curblock blk_not_found h.cur_bmp_revnum_hash in
      let written =
        F.write_offset meta.1 h.curblock h.curpos (slice buf 0 size)
          (size == sub64 space h.curpos) in
      let h' = record h { curpos = h.curpos + size } in
      let filled =
        docio_fill_zero F version real_blocksize written.1 h.curblock (h.curpos + size) in
      let in_filled : Option ℕ × Handle × F.State =
        if filled.0
        then (some (h.curblock * real_blocksize + h.curpos), h', filled.1)
        else (none, h', filled.1) in
      let in_written : Option ℕ × Handle × F.State =
        if written.0 then in_filled else (none, h, written.1) in
      let marked =
        write_meta-Reaches F version real_blocksize begin s h.curblock blk_not_found
          h.cur_bmp_revnum_hash reached in
      guard-Appends size buf meta.0 in_written h meta.1
        (write_meta_fails F version real_blocksize begin s h.curblock blk_not_found
          h.cur_bmp_revnum_hash reached)
        (λ m.
          guard-Appends size buf written.0 in_filled h written.1
            (write_fails F version real_blocksize begin meta.1 h.curblock h.curpos
              (slice buf 0 size) (size == sub64 space h.curpos) marked)
            (λ w.
              guard-Appends size buf filled.0
                (some (h.curblock * real_blocksize + h.curpos), h', filled.1) h' filled.1
                (docio_fill_zero_fails F version real_blocksize begin written.1 h.curblock
                  (h.curpos + size)
                  (then_write meta.1 h.curblock h.curpos (slice buf 0 size)
                    (size == sub64 space h.curpos) marked))
                (λ z.
                  block-IsDoc F version real_blocksize large at filled.1 h.curblock h.curpos buf
                    size room
                    (λ i p.
                      docio_fill_zero-frame F version real_blocksize L new large written.1
                        h.curblock (h.curpos + size) z h.curblock (h.curpos + i)
                        (inr (inl (omega arith)))
                      ∙ byte-here F version real_blocksize L new large meta.1 h.curblock h.curpos
                          (slice buf 0 size) (size == sub64 space h.curpos)
                          (omega (arith, length-slice buf 0 size, at, large, room)) w i
                          (omega (arith, length-slice buf 0 size))
                      ∙ get_or-slice buf 0 size i p
                      ∙ ap (λ t. get_or buf t 0) (omega arith)))))
