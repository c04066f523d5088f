-- ===== src/Docio/Read/Buffer.antt =====
-- The buffer of a handle holds the block that it names.
use forestdb.FileManager.Interface.{FileOps, IsReadable}
use forestdb.Docio.Read.{Reader, loaded, docio_read_through_buffer, ℕ}
use forestdb.Common.{
  ℕ, ◌≢◌, Option, Bool, ◌≡◌, ◌<◌, List, blk_not_found, get_or, Bool-cases, if◌then◌else◌, some, inl,
  none, ◌==◌, not, ◌&&◌, true, inr, arith, false, refl, sym, ◌∙◌, ap,
}

-- Unless the bitmap of the superblock has changed since.
pub record IsCoherent (F : FileOps) (real_blocksize : ℕ) (s : F.State) (r : Reader) : Type 0 where
  pub holds :
      r.lastbid ≢ blk_not_found
      → F.sb_bmp_revnum s ≡ r.last_bmp_revnum
      → (i : ℕ) → i < real_blocksize
      → get_or r.readbuffer i 0 ≡ F.byte s r.lastbid i

-- What a read leaves: the block in the buffer, or an error of the file manager.
abbrev pub Loads : (F : FileOps) → ℕ → F.State → ℕ → Bool × Reader → Type 0
Loads F real_blocksize s bid (true, r) =
    ((i : ℕ) → i < real_blocksize → get_or r.readbuffer i 0 ≡ F.byte s bid i)
    × IsCoherent F real_blocksize s r
Loads F real_blocksize s bid (false, r) = (F.read s bid ≡ none) × IsCoherent F real_blocksize s r

pub Loads-block :
    (F : FileOps) (real_blocksize : ℕ) (s : F.State) (bid : ℕ) (out : Bool × Reader)
    → Loads F real_blocksize s bid out
    → out.0 ≡ true
    → ((i : ℕ) → i < real_blocksize → get_or out.1.readbuffer i 0 ≡ F.byte s bid i)
      × IsCoherent F real_blocksize s out.1
Loads-block F real_blocksize s bid (true, r) l e = l
Loads-block F real_blocksize s bid (false, r) l e = absurd (ground (arith, e))

pub Loads-error :
    (F : FileOps) (real_blocksize : ℕ) (s : F.State) (bid : ℕ) (out : Bool × Reader)
    → Loads F real_blocksize s bid out
    → out.0 ≡ false
    → F.read s bid ≡ none
Loads-error F real_blocksize s bid (true, r) l e = absurd (ground (arith, e))
Loads-error F real_blocksize s bid (false, r) l e = l.0

module _ (F : FileOps) (version real_blocksize : ℕ) (s : F.State)
    (reads : IsReadable F real_blocksize s) where
  empty-IsCoherent : (r : Reader) → r.lastbid ≡ blk_not_found → IsCoherent F real_blocksize s r
  empty-IsCoherent r e = record { holds = λ ne q. absurd (ne e) }

  loaded-Loads :
      (bid : ℕ) (r : Reader) (o : Option (List ℕ))
      → F.read s bid ≡ o
      → Loads F real_blocksize s bid (loaded F version real_blocksize s bid r o)
  unfolding loaded
  loaded-Loads bid r none e = (e, empty-IsCoherent _ refl)
  loaded-Loads bid r (some buf) e = elim (Bool-cases (F.is_writable s bid)) [
    | inl t ↦ rw t (reads bid buf e, empty-IsCoherent _ refl)
    | inr f ↦ rw f (reads bid buf e, record { holds = λ ne q. reads bid buf e })
  ]

  in_buffer :
      (bid : ℕ) (r : Reader)
      → bid ≢ blk_not_found
      → IsCoherent F real_blocksize s r
      → (r.lastbid ≢ blk_not_found → F.sb_bmp_revnum s ≡ r.last_bmp_revnum)
      → Loads F real_blocksize s bid (
          if r.lastbid == bid
          then (true, r)
          else loaded F version real_blocksize s bid r (F.read s bid))
  in_buffer bid r ne c fresh = elim (Bool-cases (r.lastbid == bid)) [
    | inl t ↦
        (let same : r.lastbid ≡ bid = ground (arith, t) in
          let other : r.lastbid ≢ blk_not_found = λ e. ne (sym same ∙ e) in
          rw t (λ i p. c.holds other (fresh other) i p ∙ ap (λ b. F.byte s b i) same, c))
    | inr f ↦ rw f (loaded-Loads bid r (F.read s bid) refl)
  ]

  pub docio_read_through_buffer-Loads :
      (bid : ℕ) (r : Reader)
      → bid ≢ blk_not_found
      → IsCoherent F real_blocksize s r
      → Loads F real_blocksize s bid (docio_read_through_buffer F version real_blocksize s bid r)
  unfolding docio_read_through_buffer
  docio_read_through_buffer-Loads bid r ne c =
      elim (Bool-cases
        (not (r.lastbid == blk_not_found) && not (F.sb_bmp_revnum s == r.last_bmp_revnum))) [
          | inl t ↦ rw t (
              in_buffer bid (record r { lastbid = blk_not_found }) ne (empty-IsCoherent _ refl)
                (λ n. absurd (n refl)))
          | inr f ↦ rw f (in_buffer bid r ne c (λ n. ground (arith, f, n)))
        ]
