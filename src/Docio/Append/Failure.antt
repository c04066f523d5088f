-- ===== src/Docio/Append/Failure.antt =====
-- Where `docio_append_doc_raw` of src/docio.cc gives up, one of its writes has failed.
use forestdb.Common.{
  [], ◌∷◌, ℕ, ◌≡◌, List, Bool, true, refl, Bool-cases, if◌then◌else◌, arith, leb, false, inl, inr,
  ◌+◌, ◌==◌, ◌-◌, ◌^◌, ◌%◌, zero, suc, ltb, blk_not_found,
}
use forestdb.Common.Bytes.{slice}
use forestdb.FileManager.Interface.{FileOps}
use forestdb.Docio.{Handle, blocksize, docio_length_size, sub32}
use forestdb.Docio.Append.{
  write_front, next_of, docio_fill_zero, write_meta, write_blocks, new_block, leave_block, ready,
  alloc_blocks,
}
use forestdb.Version.{ver_non_consecutive_doc}

-- The states of the file that calls of the file manager lead to from a state on.
pub data Reaches (F : FileOps) (s : F.State) : F.State → Type 0 where
  start : Reaches F s s
  then_alloc : (t : F.State) → Reaches F s t → Reaches F s (F.alloc t).1
  then_mark_stale :
      (t : F.State) (pos len : ℕ) → Reaches F s t → Reaches F s (F.mark_stale t pos len)
  then_write :
      (t : F.State) (bid pos : ℕ) (bytes : List ℕ) (final : Bool)
      → Reaches F s t
      → Reaches F s (F.write_offset t bid pos bytes final).1

-- A write fails in a state that is reached from `s` on.
pub record WriteFails (F : FileOps) (s : F.State) : Type 0 where
  at : F.State
  reached : Reaches F s at
  bid : ℕ
  pos : ℕ
  bytes : List ℕ
  final : Bool
  failed : (F.write_offset at bid pos bytes final).0 ≡ false

guard_fails :
    {H S P : Type 0} (c : Bool) (out : Bool × H × S) (h : H) (s : S)
    → (c ≡ false → P)
    → (out.0 ≡ false → P)
    → (if c then out else (false, h, s)).0 ≡ false
    → P
guard_fails true out h s k l e = l e
guard_fails false out h s k l e = k refl

either_fails :
    {H S P : Type 0} (c : Bool) (a b : Bool × H × S)
    → (a.0 ≡ false → P)
    → (b.0 ≡ false → P)
    → (if c then a else b).0 ≡ false
    → P
either_fails true a b k l e = k e
either_fails false a b k l e = l e

pub choose_Reaches :
    (F : FileOps) {T : Type 0} (s : F.State) (state : T → F.State) (c : Bool) (a b : T)
    → Reaches F s (state a)
    → Reaches F s (state b)
    → Reaches F s (state (if c then a else b))
choose_Reaches F s state true a b k l = k
choose_Reaches F s state false a b k l = l

module _ (F : FileOps) (version real_blocksize : ℕ) (s : F.State) where
  pub write_fails :
      (t : F.State) (bid pos : ℕ) (bytes : List ℕ) (final : Bool)
      → Reaches F s t
      → (F.write_offset t bid pos bytes final).0 ≡ false
      → WriteFails F s
  write_fails t bid pos bytes final r e = record {
    at = t;
    reached = r;
    bid = bid;
    pos = pos;
    bytes = bytes;
    final = final;
    failed = e;
  }

  pub write_meta-Reaches :
      (t : F.State) (bid next hash : ℕ)
      → Reaches F s t
      → Reaches F s (write_meta F version real_blocksize t bid next hash).1
  unfolding write_meta
  write_meta-Reaches t bid next hash r = elim (Bool-cases (ver_non_consecutive_doc version)) [
    | inl v ↦ rw v (then_write t bid _ _ false r)
    | inr v ↦ rw v (then_write t bid _ _ false r)
  ]

  pub write_meta_fails :
      (t : F.State) (bid next hash : ℕ)
      → Reaches F s t
      → (write_meta F version real_blocksize t bid next hash).0 ≡ false
      → WriteFails F s
  unfolding write_meta
  write_meta_fails t bid next hash r = elim (Bool-cases (ver_non_consecutive_doc version)) [
    | inl v ↦ rw v (λ e. write_fails t bid _ _ false r e)
    | inr v ↦ rw v (λ e. write_fails t bid _ _ false r e)
  ]

  docio_fill_zero-Reaches :
      (t : F.State) (bid pos : ℕ)
      → Reaches F s t
      → Reaches F s (docio_fill_zero F version real_blocksize t bid pos).1
  unfolding docio_fill_zero
  docio_fill_zero-Reaches t bid pos r =
      elim (Bool-cases (leb (pos + docio_length_size) (blocksize version real_blocksize))) [
        | inl c ↦ rw c (then_write t bid pos _ false r)
        | inr c ↦ rw c r
      ]

  pub docio_fill_zero_fails :
      (t : F.State) (bid pos : ℕ)
      → Reaches F s t
      → (docio_fill_zero F version real_blocksize t bid pos).0 ≡ false
      → WriteFails F s
  unfolding docio_fill_zero
  docio_fill_zero_fails t bid pos r =
      elim (Bool-cases (leb (pos + docio_length_size) (blocksize version real_blocksize))) [
        | inl c ↦ rw c (λ e. write_fails t bid pos _ false r e)
        | inr c ↦ rw c (λ e. absurd (ground (arith, e)))
      ]

  pub write_blocks_fails :
      (blocks : List (ℕ × ℕ)) (h : Handle) (t : F.State) (buf : List ℕ) (offset remaining : ℕ)
      → Reaches F s t
      → (write_blocks F version real_blocksize blocks h t buf offset remaining).0 ≡ false
      → WriteFails F s
  unfolding write_blocks
  write_blocks_fails [] h t buf offset remaining r = λ e. absurd (ground (arith, e))
  write_blocks_fails ((b, hash) ∷ blocks) h t buf offset remaining r =
      let space = blocksize version real_blocksize in
      let h1 = record h { curblock = b; cur_bmp_revnum_hash = hash } in
      let meta = write_meta F version real_blocksize t b (next_of blocks) hash in
      let whole = F.write_offset meta.1 b 0 (slice buf offset space) true in
      let h2 = record h1 { curpos = space } in
      let after_whole =
        write_blocks F version real_blocksize blocks h2 whole.1 buf ((offset + space) % 2 ^ 32)
          (remaining - space) in
      let part = F.write_offset meta.1 b 0 (slice buf offset remaining) (remaining == space) in
      let h3 = record h1 { curpos = remaining } in
      let filled = docio_fill_zero F version real_blocksize part.1 b remaining in
      let after_part =
        write_blocks F version real_blocksize blocks h3 filled.1 buf ((offset + remaining) % 2 ^ 32)
          remaining in
      let in_part = if filled.0 then after_part else (false, h3, filled.1) in
      let if_whole = if whole.0 then after_whole else (false, h1, whole.1) in
      let if_part = if part.0 then in_part else (false, h1, part.1) in
      let marked = write_meta-Reaches t b (next_of blocks) hash r in
      let part_reached =
        then_write meta.1 b 0 (slice buf offset remaining) (remaining == space) marked in
      guard_fails meta.0 (if leb space remaining then if_whole else if_part) h1 meta.1
        (write_meta_fails t b (next_of blocks) hash r)
        (either_fails (leb space remaining) if_whole if_part
          (guard_fails whole.0 after_whole h1 whole.1
            (write_fails meta.1 b 0 (slice buf offset space) true marked)
            (write_blocks_fails blocks h2 whole.1 buf ((offset + space) % 2 ^ 32)
              (remaining - space) (then_write meta.1 b 0 (slice buf offset space) true marked)))
          (guard_fails part.0 in_part h1 part.1
            (write_fails meta.1 b 0 (slice buf offset remaining) (remaining == space) marked)
            (guard_fails filled.0 after_part h3 filled.1
              (docio_fill_zero_fails part.1 b remaining part_reached)
              (write_blocks_fails blocks h3 filled.1 buf ((offset + remaining) % 2 ^ 32) remaining
                (docio_fill_zero-Reaches part.1 b remaining part_reached)))))

  pub write_front_fails :
      (h : Handle) (t : F.State) (next : ℕ) (buf : List ℕ)
      → Reaches F s t
      → (write_front F version real_blocksize h t next buf).0 ≡ false
      → WriteFails F s
  unfolding write_front
  write_front_fails h t next buf r =
      let meta = write_meta F version real_blocksize t h.curblock next h.cur_bmp_revnum_hash in
      let after = write_meta-Reaches t h.curblock next h.cur_bmp_revnum_hash r in
      let offset = sub32 (blocksize version real_blocksize) h.curpos in
      elim (Bool-cases meta.0) [
        | inr bad ↦ rw bad (λ e. write_meta_fails t h.curblock next h.cur_bmp_revnum_hash r bad)
        | inl good ↦ elim (Bool-cases (offset == 0)) [
          | inl z ↦ rw (good, z) (λ e. absurd (ground (arith, e)))
          | inr z ↦
              rw (good, z)
                (λ e. write_fails meta.1 h.curblock h.curpos (slice buf 0 offset) true after e)
        ]
      ]

  pub write_front-Reaches :
      (h : Handle) (t : F.State) (next : ℕ) (buf : List ℕ)
      → Reaches F s t
      → Reaches F s (write_front F version real_blocksize h t next buf).1
  unfolding write_front
  write_front-Reaches h t next buf r =
      let meta = write_meta F version real_blocksize t h.curblock next h.cur_bmp_revnum_hash in
      let after = write_meta-Reaches t h.curblock next h.cur_bmp_revnum_hash r in
      let offset = sub32 (blocksize version real_blocksize) h.curpos in
      elim (Bool-cases meta.0) [
        | inr bad ↦ rw bad after
        | inl good ↦ elim (Bool-cases (offset == 0)) [
          | inl z ↦ rw (good, z) after
          | inr z ↦
              rw (good, z) (then_write meta.1 h.curblock h.curpos (slice buf 0 offset) true after)
        ]
      ]

  pub alloc_blocks-Reaches :
      (n : ℕ) (t : F.State)
      → Reaches F s t
      → Reaches F s (alloc_blocks F version real_blocksize n t).1
  unfolding alloc_blocks
  alloc_blocks-Reaches zero t r = r
  alloc_blocks-Reaches (suc n) t r = alloc_blocks-Reaches n (F.alloc t).1 (then_alloc t r)

  pub leave_block-Reaches :
      (h : Handle) (t : F.State)
      → Reaches F s t
      → Reaches F s (leave_block F version real_blocksize h t)
  unfolding leave_block
  leave_block-Reaches h t r =
      choose_Reaches F s (λ out. out) (ltb h.curpos real_blocksize) _ _ (then_mark_stale t _ _ r) r

  pub ready-Reaches : (h : Handle) → Reaches F s (ready F version real_blocksize h s).1
  unfolding ready new_block
  ready-Reaches h =
      let first : Handle × F.State =
        if h.curblock == blk_not_found then new_block F version real_blocksize s else (h, s) in
      let first_reached : Reaches F s first.1 =
        choose_Reaches F s (λ (out : Handle × F.State). out.1) (h.curblock == blk_not_found)
          (new_block F version real_blocksize s) (h, s) (then_alloc s start) start in
      choose_Reaches F s (λ (out : Handle × F.State). out.1)
        (F.is_writable first.1 first.0.curblock) first
        (new_block F version real_blocksize (leave_block F version real_blocksize first.0 first.1))
        first_reached (then_alloc _ (leave_block-Reaches first.0 first.1 first_reached))
