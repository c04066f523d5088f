-- ===== src/Docio/Append/Linked.antt =====
-- `docio_append_doc_raw` stores the document, in files whose blocks are linked.
use forestdb.Common.{
  ℕ, length, List, ◌≡◌, true, suc, ap, ◌<◌, ◌^◌, zero, ◌≤◌, ◌-◌, refl, arith, subst, Bool, sub64,
  Option, ltb, false, ◌%◌, not, if◌then◌else◌, ◌==◌, blk_not_found, ◌&&◌, ◌+◌, ◌/◌, leb, ◌∙◌,
}
use forestdb.FileManager.Interface.{FileOps, IsLawful}
use forestdb.FileManager.Stale.{docblk_meta_size}
use forestdb.Version.{ver_non_consecutive_doc}
use forestdb.Docio.{Handle, blocksize, sub32}
use forestdb.Docio.Append.{
  next_of, new_block, leave_block, ready, append_here, alloc_blocks, from_current, from_new,
  append_linked, docio_append_doc_raw, append_consecutive,
}
use forestdb.Docio.Append.Blocks.{NotIn, Distinct, space_is}
use forestdb.Docio.Append.Stores.{Appends, append_here-Appends}
use forestdb.Docio.Append.Counts.{
  Fits-behind, Fits-whole, Fits-nonempty, count_front, count_whole, some_front, here_fits,
  here_full, div_fits, mod_fits,
}
use forestdb.Docio.Append.Failure.{
  Reaches, choose_Reaches, alloc_blocks-Reaches, leave_block-Reaches, ready-Reaches,
}
use forestdb.Docio.Append.Front.{from_current-Appends, from_new-Appends}

length-alloc_blocks :
    (F : FileOps) (version real_blocksize n : ℕ) (s : F.State)
    → length (alloc_blocks F version real_blocksize n s).0 ≡ n
unfolding alloc_blocks
length-alloc_blocks F version real_blocksize zero s = refl
length-alloc_blocks F version real_blocksize (suc n) s =
    ap suc (length-alloc_blocks F version real_blocksize n (F.alloc s).1)

-- What the allocator promises for a document of `size` bytes: the blocks it hands out are all
-- different, and none is the current block.
abbrev pub AllocatesFresh : (F : FileOps) → ℕ → ℕ → F.State → ℕ → ℕ → Type 0
AllocatesFresh F version real_blocksize s cur size =
    (n : ℕ)
    → n ≤ size / blocksize version real_blocksize + 2
    → Distinct (alloc_blocks F version real_blocksize n s).0
      × NotIn cur (alloc_blocks F version real_blocksize n s).0

module _ (F : FileOps) (version real_blocksize : ℕ) (L : IsLawful F real_blocksize)
    (new : ver_non_consecutive_doc version ≡ true) (large : docblk_meta_size < real_blocksize)
    (word : real_blocksize < 2 ^ 32) (start : F.State) where
  abbrev space : ℕ
  space = blocksize version real_blocksize

  at : space ≡ real_blocksize - docblk_meta_size
  at = space_is F version real_blocksize L new large

  branch-Appends :
      (size : ℕ) (buf : List ℕ) (c : Bool) (a b : Option ℕ × Handle × F.State)
      → (c ≡ true → Appends F start real_blocksize size buf a)
      → (c ≡ false → Appends F start real_blocksize size buf b)
      → Appends F start real_blocksize size buf (if c then a else b)
  branch-Appends size buf true a b k l = k refl
  branch-Appends size buf false a b k l = l refl

  few : (n : ℕ) (a b : Bool) → n + (if a then 1 else 0) + (if b then 1 else 0) ≤ n + 2
  few n a b = ground arith

  next_of-alloc_blocks :
      (n : ℕ) (s : F.State)
      → 0 < n
      → next_of (alloc_blocks F version real_blocksize n s).0 ≡ (F.alloc s).0
  unfolding alloc_blocks
  next_of-alloc_blocks zero s p = absurd (omega arith)
  next_of-alloc_blocks (suc n) s p = refl

  append_linked-Appends :
      (h : Handle) (s : F.State) (size : ℕ) (buf : List ℕ)
      → h.curpos ≤ space
      → space - h.curpos < size
      → size < 2 ^ 32
      → Reaches F start s
      → AllocatesFresh F version real_blocksize s h.curblock size
      → Appends F start real_blocksize size buf
          (append_linked F version real_blocksize h s size buf)
  unfolding append_linked
  append_linked-Appends h s size buf room more small reached fresh =
      let offset = sub32 space h.curpos in
      let nblock = size / space % 2 ^ 32 in
      let remain = size % space % 2 ^ 32 in
      let one_more = ltb offset remain in
      let first = (F.alloc s).0 in
      let start_new = not (h.curblock == blk_not_found) && ltb (h.curblock + 1) first in
      let extra = start_new && (not (remain == 0) && not one_more) in
      let n = nblock + (if one_more then 1 else 0) + (if extra then 1 else 0) in
      let list = alloc_blocks F version real_blocksize n s in
      let here : offset ≡ space - h.curpos = omega (arith, at) in
      let count = length-alloc_blocks F version real_blocksize n s in
      let (distinct, not_in) =
        fresh n (subst (λ q. n ≤ q + 2) (div_fits size space small) (few nblock one_more extra)) in
      let left =
        if h.curblock == blk_not_found
        then list.1
        else leave_block F version real_blocksize h list.1 in
      let allocated = alloc_blocks-Reaches F version real_blocksize start n s reached in
      branch-Appends size buf (not (offset == 0) && not start_new)
        (from_current F version real_blocksize list.0 h list.1 size buf first)
        (from_new F version real_blocksize list.0 h left size buf first)
        (λ t.
          (let fits =
              Fits-behind space offset size list.0 (omega (arith, at)) (omega (arith, here))
                (omega (arith, here)) nblock remain (div_fits size space small)
                (mod_fits size space small)
                (count
                  ∙ count_front nblock (offset == 0) start_new one_more (not (remain == 0)) t) in
            let front =
              from_current-Appends F version real_blocksize L new large word start list.0 h list.1
                size buf (some_front offset space h.curpos start_new here t) not_in distinct fits
                small more allocated in
            subst
              (λ b.
                Appends F start real_blocksize size buf
                  (from_current F version real_blocksize list.0 h list.1 size buf b))
              (next_of-alloc_blocks n s (
                subst (λ t. 0 < t) count
                  (Fits-nonempty space (size - offset) list.0 fits (omega (arith, here)))))
              front))
        (λ f.
          (let fits =
              Fits-whole space size list.0 (omega (arith, at)) (omega arith) nblock remain
                (div_fits size space small) (mod_fits size space small)
                (count ∙ count_whole nblock offset remain start_new f) in
            let all =
              from_new-Appends F version real_blocksize L new large word start list.0 h left size
                buf (omega arith) distinct fits small
                (choose_Reaches F start (λ (t : F.State). t) (h.curblock == blk_not_found) list.1
                  (leave_block F version real_blocksize h list.1) allocated
                  (leave_block-Reaches F version real_blocksize start h list.1 allocated)) in
            subst
              (λ b.
                Appends F start real_blocksize size buf
                  (from_new F version real_blocksize list.0 h left size buf b))
              (next_of-alloc_blocks n s
                (subst (λ t. 0 < t) count (Fits-nonempty space size list.0 fits (omega arith))))
              all))

  choose_curpos :
      (c : Bool) (a b : Handle × F.State)
      → a.0.curpos ≤ space
      → b.0.curpos ≤ space
      → (if c then a else b).0.curpos ≤ space
  choose_curpos true a b h k = h
  choose_curpos false a b h k = k

  curpos-ready :
      (h : Handle) (s : F.State)
      → h.curpos ≤ space
      → (ready F version real_blocksize h s).0.curpos ≤ space
  unfolding ready new_block
  curpos-ready h s room =
      (let first =
          if h.curblock == blk_not_found then new_block F version real_blocksize s else (h, s) in
        choose_curpos (F.is_writable first.1 first.0.curblock) first
          (new_block F version real_blocksize
            (leave_block F version real_blocksize first.0 first.1))
          (choose_curpos (h.curblock == blk_not_found) (new_block F version real_blocksize s) (h, s)
            (omega arith) room)
          (omega arith))

pub docio_append_doc_raw-Appends :
    (F : FileOps) (version real_blocksize : ℕ)
    → IsLawful F real_blocksize
    → ver_non_consecutive_doc version ≡ true
    → docblk_meta_size < real_blocksize
    → real_blocksize < 2 ^ 32
    → (h : Handle) (s : F.State) (size : ℕ) (buf : List ℕ) → size < 2 ^ 32
    → h.curpos ≤ blocksize version real_blocksize
    → AllocatesFresh F version real_blocksize
        (ready F version real_blocksize h s).1
        (ready F version real_blocksize h s).0.curblock
        size
    → Appends F s real_blocksize size buf
        (docio_append_doc_raw F version real_blocksize h s size buf)
unfolding docio_append_doc_raw
docio_append_doc_raw-Appends F version real_blocksize L new large word h s size buf small room
      fresh =
    let begin = ready F version real_blocksize h s in
    let begin_room = curpos-ready F version real_blocksize L new large word s h s room in
    let at = space_is F version real_blocksize L new large in
    branch-Appends F version real_blocksize L new large word s size buf
      (leb size (sub64 (blocksize version real_blocksize) begin.0.curpos))
      (append_here F version real_blocksize begin.0 begin.1 size buf)
      (if ver_non_consecutive_doc version
        then append_linked F version real_blocksize begin.0 begin.1 size buf
        else append_consecutive F version real_blocksize begin.0 begin.1 size buf)
      (λ t.
        append_here-Appends F version real_blocksize L new large word s begin.0 begin.1 size buf
          (ready-Reaches F version real_blocksize s h)
          (here_fits (blocksize version real_blocksize) begin.0.curpos size (omega (arith, at))
            begin_room t))
      (λ f.
        branch-Appends F version real_blocksize L new large word s size buf
          (ver_non_consecutive_doc version)
          (append_linked F version real_blocksize begin.0 begin.1 size buf)
          (append_consecutive F version real_blocksize begin.0 begin.1 size buf)
          (λ t.
            append_linked-Appends F version real_blocksize L new large word s begin.0 begin.1 size
              buf begin_room
              (here_full (blocksize version real_blocksize) begin.0.curpos size (omega (arith, at))
                begin_room f)
              small (ready-Reaches F version real_blocksize s h) fresh)
          (λ no_link. absurd (ground (arith, no_link, new))))
