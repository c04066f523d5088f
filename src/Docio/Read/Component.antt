-- ===== src/Docio/Read/Component.antt =====
-- `_docio_read_doc_component` gives the bytes of the document, as they lie in the linked blocks.
use forestdb.Common.{
  [], ℕ, List, ◌≢◌, ◌<◌, ◌≡◌, true, ◌/◌, ◌^◌, ◌≤◌, ◌-◌, ◌⊎◌, arith, ◌++◌, inl, inr, subst,
  blk_not_found, suc, if◌then◌else◌, leb, ◌+◌, sym, ◌*◌, ◌==◌, zero, not, ◌%◌,
}
use forestdb.Common.Bytes.{slice, length-slice}
use forestdb.FileManager.Interface.{FileOps, IsLawful, IsReadable}
use forestdb.FileManager.Stale.{docblk_meta_size}
use forestdb.Version.{ver_non_consecutive_doc}
use forestdb.Docio.{blocksize, sub32}
use forestdb.Docio.Append.Blocks.{space_is}
use forestdb.Docio.Read.{
  Reader, ReadStatus, done, corrupted, read_error, docio_read_through_buffer, next_block,
  component_loop, docio_read_doc_component,
}
use native.Mathlib.Nat.{div-le_self}
use forestdb.Docio.Read.Buffer.{
  IsCoherent, docio_read_through_buffer-Loads, Loads-block, Loads-error,
}
use forestdb.Docio.Read.Blocks.{in_this_block, Gives, branch-Gives, over_blocks, out_of_file}

module _ (F : FileOps) (version real_blocksize : ℕ) (L : IsLawful F real_blocksize)
    (new : ver_non_consecutive_doc version ≡ true) (large : docblk_meta_size < real_blocksize)
    (word : real_blocksize < 2 ^ 32) (s : F.State) (end : F.pos s < 2 ^ 64)
    (reads : IsReadable F real_blocksize s) where
  abbrev space : ℕ
  space = blocksize version real_blocksize

  at : space ≡ real_blocksize - docblk_meta_size
  at = space_is F version real_blocksize L new large

  none_left : (pos len : ℕ) → len < 0 ⊎ ((pos < space) × (len ≤ 0)) → len ≡ 0
  none_left pos len (inl h) = absurd (omega arith)
  none_left pos len (inr (p, q)) = omega arith

  less_left :
      (fuel pos len : ℕ)
      → pos ≤ space
      → space - pos < len
      → len < suc fuel ⊎ ((pos < space) × (len ≤ suc fuel))
      → len - (space - pos) < fuel ⊎ ((0 < space) × (len - (space - pos) ≤ fuel))
  less_left fuel pos len room more (inl h) = inr (omega (arith, at), omega arith)
  less_left fuel pos len room more (inr (p, q)) = inr (omega (arith, at), omega arith)

  not_found : (bid : ℕ) → bid < F.pos s / real_blocksize → bid ≢ blk_not_found
  not_found bid inside e =
      let block = div-le_self (F.pos s) real_blocksize in omega (arith, e, inside, block, end)

  nothing_left :
      (bid pos len : ℕ) (r : Reader)
      → len ≡ 0
      → IsCoherent F real_blocksize s r
      → Gives F real_blocksize s bid pos len (done (bid * real_blocksize + pos), [], r)
  nothing_left bid pos len r e c = (sym e, λ k p. absurd (omega (arith, e, p)), c)

  component_loop-Gives :
      (fuel bid pos len : ℕ) (r : Reader)
      → bid < F.pos s / real_blocksize
      → pos ≤ space
      → len < fuel ⊎ ((pos < space) × (len ≤ fuel))
      → IsCoherent F real_blocksize s r
      → Gives F real_blocksize s bid pos len
          (component_loop F version real_blocksize fuel s bid pos len r)
  unfolding component_loop
  component_loop-Gives zero bid pos len r inside room enough c =
      nothing_left bid pos len r (none_left pos len enough) c
  component_loop-Gives (suc fuel) bid pos len r inside room enough c =
      let load = docio_read_through_buffer F version real_blocksize s bid r in
      let loads =
        docio_read_through_buffer-Loads F version real_blocksize s reads bid r
          (not_found bid inside) c in
      let restsize = sub32 space pos in
      let same : restsize ≡ space - pos = omega (arith, at) in
      let next = next_block F version real_blocksize bid load.1.readbuffer in
      let rest = component_loop F version real_blocksize fuel s next 0 (len - restsize) load.1 in
      let onward : ReadStatus × List ℕ × Reader =
        if leb (F.pos s / real_blocksize) next
        then (corrupted, slice load.1.readbuffer pos restsize, load.1)
        else (rest.0, slice load.1.readbuffer pos restsize ++ rest.1, rest.2) in
      let in_block : ReadStatus × List ℕ × Reader =
        if leb len restsize
        then (
          done (bid * real_blocksize + (pos + len) % 2 ^ 32),
          slice load.1.readbuffer pos len,
          load.1,
        )
        else onward in
      branch-Gives F version real_blocksize L new large word s end bid pos len (len == 0)
        (done (bid * real_blocksize + pos), [], r)
        (if not load.0 then (read_error, [], load.1) else in_block)
        (λ z. nothing_left bid pos len r (ground (arith, z)) c)
        (λ nz.
          branch-Gives F version real_blocksize L new large word s end bid pos len (not load.0)
            (read_error, [], load.1) in_block
            (λ bad. (bid, Loads-error F real_blocksize s bid load loads (ground (arith, bad))))
            (λ good.
              (let (holds, coherent) =
                  Loads-block F real_blocksize s bid load loads (ground (arith, good)) in
                branch-Gives F version real_blocksize L new large word s end bid pos len
                  (leb len restsize)
                  (
                    done (bid * real_blocksize + (pos + len) % 2 ^ 32),
                    slice load.1.readbuffer pos len,
                    load.1,
                  )
                  onward
                  (λ fits. (
                    length-slice load.1.readbuffer pos len,
                    in_this_block F version real_blocksize L new large word s end bid pos len
                        load.1.readbuffer (ground (arith, fits, same)) holds,
                    coherent,
                  ))
                  (λ long.
                    branch-Gives F version real_blocksize L new large word s end bid pos len
                      (leb (F.pos s / real_blocksize) next)
                      (corrupted, slice load.1.readbuffer pos restsize, load.1)
                      (rest.0, slice load.1.readbuffer pos restsize ++ rest.1, rest.2)
                      (λ out.
                        (out_of_file F version real_blocksize L new large word s end bid pos len
                          load.1.readbuffer room (ground (arith, long, same)) holds
                          (ground (arith, out))))
                      (λ still.
                        subst
                          (λ t.
                            (let on =
                                component_loop F version real_blocksize fuel s next 0 (len - t)
                                  load.1 in
                              Gives F real_blocksize s bid pos len
                                (on.0, slice load.1.readbuffer pos t ++ on.1, on.2)))
                          (sym same)
                          (over_blocks F version real_blocksize L new large word s end bid pos len
                            load.1.readbuffer
                            (component_loop F version real_blocksize fuel s next 0
                              (len - (space - pos)) load.1)
                            room (ground (arith, long, same)) holds
                            (component_loop-Gives fuel next 0 (len - (space - pos)) load.1
                              (ground (arith, still)) (omega arith)
                              (less_left fuel pos len room (ground (arith, long, same)) enough)
                              coherent)))))))

-- In a file whose blocks are linked and are read as they are, `_docio_read_doc_component` that succeeds gives the `len` bytes
-- which the links lead to, and leaves the buffer as the block that it names; it reports a corrupted
-- file only where one of them lies outside the file, and a read error only where some block cannot be
-- read.
pub docio_read_doc_component-Gives :
    (F : FileOps) (version real_blocksize : ℕ)
    → IsLawful F real_blocksize
    → ver_non_consecutive_doc version ≡ true
    → docblk_meta_size < real_blocksize
    → real_blocksize < 2 ^ 32
    → (s : F.State) → F.pos s < 2 ^ 64
    → IsReadable F real_blocksize s
    → (offset len : ℕ) (r : Reader) → len < 2 ^ 32
    → offset / real_blocksize < F.pos s / real_blocksize
    → offset % real_blocksize ≤ blocksize version real_blocksize
    → IsCoherent F real_blocksize s r
    → Gives F real_blocksize s
        (offset / real_blocksize)
        (offset % real_blocksize)
        len
        (docio_read_doc_component F version real_blocksize s offset len r)
unfolding docio_read_doc_component
docio_read_doc_component-Gives F version real_blocksize L new large word s end reads offset len r
      small inside room c =
    let at = space_is F version real_blocksize L new large in
    let whole : len % 2 ^ 32 ≡ len = omega (arith, small) in
    let in_word : offset % real_blocksize % 2 ^ 32 ≡ offset % real_blocksize =
      omega (arith, room, at, word) in
    rw (whole, in_word)
      (component_loop-Gives F version real_blocksize L new large word s end reads (suc len)
        (offset / real_blocksize) (offset % real_blocksize) len r inside room (inl (omega arith)) c)
