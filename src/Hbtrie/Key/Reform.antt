-- ===== src/Hbtrie/Key/Reform.antt =====
-- `_hbtrie_reform_key` and `_hbtrie_reform_key_reverse` on every key.
use forestdb.Hbtrie.Key.{
  List, ℕ, get_nchunk_raw, rest_size, reformed, hbtrie_reform_key_reverse, l2c, get_nchunk,
  hbtrie_reform_key,
}
use forestdb.Hbtrie.Key.Sizes.{rest_size-zero, l2c-bounds, l2c-pos, rest_size-eq, get_nchunk-raw}
use mathlib.Core.Option.{some-injective}
use forestdb.Hbtrie.Key.Fill.{normal_form, filled_at, untouched}
use forestdb.Common.Bytes.{copy_at, slice, slice_ext, slice-all}
use forestdb.Common.{
  List, ℕ, length, ◌≤◌, ◌*◌, ◌<◌, get_or, ◌+◌, set, ◌≡◌, calloc, ◌-◌, ltb, arith, refl, suc, zero,
  some, Option, ◌∙◌, ap, subst, none, ◌==◌, sym, ◌∷◌, false, [],
}

multiple-le : (q c : ℕ) → 0 < q → c ≤ q * c
multiple-le zero c h = absurd (omega arith)
multiple-le (suc q) c h = omega arith

-- A buffer that holds the reformed key: the raw key, zeros, and a last byte by which the length of
-- the raw key is found again; what lies behind is as before.
pub record IsReformed (chunksize : ℕ) (rawkey outkey : List ℕ) (outkeylen : ℕ) (out : List ℕ)
    : Type 0 where
  pub key : slice out 0 (length rawkey) ≡ rawkey
  pub zeros : (i : ℕ) → length rawkey ≤ i → i < outkeylen - 1 → get_or out i 0 ≡ 0
  pub reverse : hbtrie_reform_key_reverse chunksize out outkeylen ≡ some (length rawkey)
  pub nonempty : length rawkey < outkeylen
  pub nchunk : get_nchunk chunksize outkeylen ≡ get_nchunk_raw chunksize (length rawkey)
  pub behind : (i : ℕ) → outkeylen ≤ i → get_or out i 0 ≡ get_or outkey i 0

module _ (chunksize : ℕ) (rawkey outkey : List ℕ) (some_chunk : 0 < chunksize)
    (small : chunksize < 256) (nonempty : 0 < length rawkey)
    (room : get_nchunk_raw chunksize (length rawkey) * chunksize ≤ length outkey) where
  rest :
      rest_size chunksize (length rawkey)
      ≡ length rawkey + chunksize - l2c chunksize (length rawkey) * chunksize
  rest = rest_size-eq chunksize (length rawkey) some_chunk small nonempty

  abbrev written : List ℕ
  written =
      set
        (copy_at (copy_at outkey 0 rawkey) (length rawkey)
          (calloc (get_nchunk_raw chunksize (length rawkey) * chunksize - length rawkey)))
        (get_nchunk_raw chunksize (length rawkey) * chunksize - 1)
        (rest_size chunksize (length rawkey))

  abbrev size : ℕ
  size = get_nchunk_raw chunksize (length rawkey) * chunksize

  abbrev body : ℕ
  body = l2c chunksize (length rawkey) * chunksize

  size_parts : size ≡ body + chunksize
  unfolding get_nchunk_raw
  size_parts = omega arith

  size_more : length rawkey < size
  size_more =
      let (low, high) = l2c-bounds chunksize (length rawkey) some_chunk in omega (arith, size_parts)

  reformed-written : reformed chunksize rawkey outkey ≡ written
  unfolding reformed get_nchunk_raw
  reformed-written =
      let (low, high) = l2c-bounds chunksize (length rawkey) some_chunk in
      let at_least = l2c-pos chunksize (length rawkey) some_chunk nonempty in
      ap (λ t. set t (size - 1) (rest_size chunksize (length rawkey)))
        (normal_form chunksize (length rawkey) (rest_size chunksize (length rawkey))
            (l2c chunksize (length rawkey)) (copy_at outkey 0 rawkey) low high at_least rest
          ∙ ap (λ t. copy_at (copy_at outkey 0 rawkey) (length rawkey) (calloc (t - length rawkey)))
              (sym size_parts))

  last_byte : get_or written (size - 1) 0 ≡ rest_size chunksize (length rawkey)
  last_byte =
      let (low, high) = l2c-bounds chunksize (length rawkey) some_chunk in
      filled_at rawkey outkey size (rest_size chunksize (length rawkey)) (size - 1) size_more room
        (omega (arith, size_more))
      ∙ ground (arith, size_parts)

  length_back : hbtrie_reform_key_reverse chunksize written size ≡ some (length rawkey)
  unfolding hbtrie_reform_key_reverse
  length_back =
      let (low, high) = l2c-bounds chunksize (length rawkey) some_chunk in
      let at_least = l2c-pos chunksize (length rawkey) some_chunk nonempty in
      rw (last_byte, rest)
        (ground (arith, size_parts, multiple-le (l2c chunksize (length rawkey)) chunksize at_least))

  written-IsReformed : IsReformed chunksize rawkey outkey size written
  written-IsReformed = record {
    key =
        slice_ext written rawkey 0 (length rawkey) (λ i p q.
          filled_at rawkey outkey size (rest_size chunksize (length rawkey)) i size_more room
            (omega (arith, size_more))
          ∙ ground arith)
        ∙ slice-all rawkey;
    zeros = λ i p q.
        filled_at rawkey outkey size (rest_size chunksize (length rawkey)) i size_more room
          (omega (arith, size_more))
        ∙ ground arith;
    reverse = length_back;
    nonempty = size_more;
    nchunk = get_nchunk-raw chunksize (length rawkey) some_chunk nonempty;
    behind = λ i h.
        untouched rawkey outkey size (rest_size chunksize (length rawkey)) i size_more room h;
  }

  accepted :
      hbtrie_reform_key chunksize rawkey outkey ≡ (some size, reformed chunksize rawkey outkey)
  unfolding hbtrie_reform_key
  accepted =
      let (low, high) = l2c-bounds chunksize (length rawkey) some_chunk in
      let more : (rest_size chunksize (length rawkey) == 0) ≡ false = ground (arith, rest) in
      let less : ltb chunksize (rest_size chunksize (length rawkey)) ≡ false =
        ground (arith, rest) in
      rw (more, less) refl

-- What `_hbtrie_reform_key` returns, and leaves in the buffer.
abbrev pub Reforms : ℕ → List ℕ → List ℕ → Option ℕ × List ℕ → Type 0
Reforms chunksize rawkey outkey (none, out) = (length rawkey ≡ 0) × (out ≡ outkey)
Reforms chunksize rawkey outkey (some outkeylen, out) =
    (outkeylen ≡ get_nchunk_raw chunksize (length rawkey) * chunksize)
    × (0 < length rawkey)
    × IsReformed chunksize rawkey outkey outkeylen out

-- With room for a chunk more than the raw key needs, `_hbtrie_reform_key` refuses an empty key and
-- no other, and leaves the buffer alone then; any other key it writes with zeros behind it and a
-- last byte from which `_hbtrie_reform_key_reverse` gives the length of the raw key, and it writes
-- nothing behind the number of chunks that `_get_nchunk_raw` said.
pub hbtrie_reform_key-Reforms :
    (chunksize : ℕ) (rawkey outkey : List ℕ)
    → 0 < chunksize
    → chunksize < 256
    → get_nchunk_raw chunksize (length rawkey) * chunksize ≤ length outkey
    → Reforms chunksize rawkey outkey (hbtrie_reform_key chunksize rawkey outkey)
hbtrie_reform_key-Reforms chunksize [] outkey h k room =
    let empty : hbtrie_reform_key chunksize [] outkey ≡ (none, outkey) =
      unfold hbtrie_reform_key in rw (rest_size-zero chunksize) refl in
    rw empty (refl, refl)
hbtrie_reform_key-Reforms chunksize (b ∷ bs) outkey h k room =
    rw
      (
        accepted chunksize (b ∷ bs) outkey h k (omega arith) room,
        reformed-written chunksize (b ∷ bs) outkey h k (omega arith) room,
      )
      (refl, omega arith, written-IsReformed chunksize (b ∷ bs) outkey h k (omega arith) room)

-- Two raw keys with the same reformed key are the same.
pub hbtrie_reform_key-injective :
    (chunksize : ℕ) (a b x y : List ℕ) (outkeylen : ℕ) (p q : List ℕ)
    → 0 < chunksize
    → chunksize < 256
    → get_nchunk_raw chunksize (length a) * chunksize ≤ length x
    → get_nchunk_raw chunksize (length b) * chunksize ≤ length y
    → hbtrie_reform_key chunksize a x ≡ (some outkeylen, p)
    → hbtrie_reform_key chunksize b y ≡ (some outkeylen, q)
    → ((i : ℕ) → i < outkeylen → get_or p i 0 ≡ get_or q i 0)
    → a ≡ b
hbtrie_reform_key-injective chunksize a b x y outkeylen p q h k room_a room_b ea eb same =
    let (la, na, ra) =
      subst (Reforms chunksize a x) ea (hbtrie_reform_key-Reforms chunksize a x h k room_a) in
    let (lb, nb, rb) =
      subst (Reforms chunksize b y) eb (hbtrie_reform_key-Reforms chunksize b y h k room_b) in
    let last : get_or p (outkeylen - 1) 0 ≡ get_or q (outkeylen - 1) 0 =
      same (outkeylen - 1) (omega (arith, ra.nonempty)) in
    let back : hbtrie_reform_key_reverse chunksize p outkeylen
        ≡ hbtrie_reform_key_reverse chunksize q outkeylen =
      unfold hbtrie_reform_key_reverse in rw last refl in
    let lengths : length a ≡ length b =
      some-injective (length a) (length b) (sym ra.reverse ∙ back ∙ rb.reverse) in
    sym ra.key
    ∙ ap (slice p 0) lengths
    ∙ slice_ext p q 0 (length b) (λ i u v. same i (omega (arith, rb.nonempty)))
    ∙ rb.key
