-- ===== src/Hbtrie/Key.antt =====
-- The keys of src/hbtrie.cc: a raw key is cut into chunks of `chunksize` bytes, each of which is a
-- key of a B+tree; the reformed key has one chunk more, whose last byte is the number of bytes of
-- the raw key in the chunk before it. Buffers are lists of bytes.
pub mod Sizes
pub mod Fill
pub mod Reform
pub mod Chunks
use forestdb.Common.Bytes.{copy_at}
use forestdb.Common.{
  List, ℕ, ◌-◌, length, Option, Bool, ◌+◌, if◌then◌else◌, ◌/◌, get_or, true, ◌*◌, ◌==◌, ltb, zero,
  ◌&&◌, none, ◌%◌, some, calloc, set,
}
use Prim.Native.Nat.{ℕ, suc}

-- `_l2c`

unfoldable pub l2c : ℕ → ℕ → ℕ
l2c chunksize len = (len + (chunksize - 1)) / chunksize

-- `_get_nchunk_raw`
unfoldable pub get_nchunk_raw : ℕ → ℕ → ℕ
unfolding l2c
get_nchunk_raw chunksize rawkeylen = l2c chunksize rawkeylen + 1

-- `_get_nchunk`, for a key that is not empty
unfoldable pub get_nchunk : ℕ → ℕ → ℕ
get_nchunk chunksize keylen = (keylen - 1) / chunksize + 1

-- `rsize`, an 8-bit integer
unfoldable pub rest_size : ℕ → ℕ → ℕ
unfolding get_nchunk_raw
rest_size chunksize rawkeylen =
    let nchunk = get_nchunk_raw chunksize rawkeylen in
    (if ltb 2 nchunk then rawkeylen - (nchunk - 2) * chunksize else rawkeylen) % 256

-- The output buffer after the copy, the zero fill and the last byte.
unfoldable pub reformed : ℕ → List ℕ → List ℕ → List ℕ
unfolding get_nchunk_raw rest_size
reformed chunksize rawkey outkey =
    let nchunk = get_nchunk_raw chunksize (length rawkey) in
    let rsize = rest_size chunksize (length rawkey) in
    let copied = copy_at outkey 0 rawkey in
    let filled =
      if ltb rsize chunksize
      then copy_at copied ((nchunk - 2) * chunksize + rsize) (calloc (2 * chunksize - rsize))
      else copy_at copied ((nchunk - 1) * chunksize) (calloc chunksize) in
    set filled (nchunk * chunksize - 1) rsize

-- `_hbtrie_reform_key`: the length, none for -1, and the output buffer.
unfoldable pub hbtrie_reform_key : ℕ → List ℕ → List ℕ → Option ℕ × List ℕ
unfolding get_nchunk_raw rest_size reformed
hbtrie_reform_key chunksize rawkey outkey =
    let rsize = rest_size chunksize (length rawkey) in
    if rsize == 0 then (none, outkey) else if ltb chunksize rsize then (none, outkey) else (
      some (get_nchunk_raw chunksize (length rawkey) * chunksize),
      reformed chunksize rawkey outkey,
    )

-- `_hbtrie_reform_key_reverse`: the length of the raw key, none for -1.
unfoldable pub hbtrie_reform_key_reverse : ℕ → List ℕ → ℕ → Option ℕ
hbtrie_reform_key_reverse chunksize key keylen =
    let rsize = get_or key (keylen - 1) 0 in
    if rsize == 0
    then none
    else if rsize == chunksize
    then some (keylen - chunksize)
    else some (keylen - chunksize * 2 + rsize)

-- `memcmp` of `n` bytes from `off` on, as far as its result is zero.
unfoldable pub same_bytes : List ℕ → List ℕ → ℕ → ℕ → Bool
same_bytes key1 key2 off zero = true
same_bytes key1 key2 off (suc n) =
    (get_or key1 off 0 == get_or key2 off 0) && same_bytes key1 key2 (off + 1) n

-- The loop of `_hbtrie_find_diff_chunk`, with `n` chunks left.
unfoldable pub diff_loop : ℕ → List ℕ → List ℕ → ℕ → ℕ → ℕ
unfolding same_bytes
diff_loop chunksize key1 key2 i zero = i
diff_loop chunksize key1 key2 i (suc n) =
    if same_bytes key1 key2 (chunksize * i) chunksize
    then diff_loop chunksize key1 key2 (i + 1) n
    else i

-- `_hbtrie_find_diff_chunk`
unfoldable pub hbtrie_find_diff_chunk : ℕ → List ℕ → List ℕ → ℕ → ℕ → ℕ
unfolding diff_loop
hbtrie_find_diff_chunk chunksize key1 key2 start_chunk end_chunk =
    diff_loop chunksize key1 key2 start_chunk (end_chunk - start_chunk)
