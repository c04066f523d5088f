-- ===== src/Superblock/Writable.antt =====
-- `sb_bmp_is_writable` of src/superblock.cc, between the calls of the reader's barrier.
pub mod Safety
use forestdb.Common.{none, some}
use forestdb.Superblock.State.{Superblock, bytes}
use forestdb.Superblock.Bitmap.{is_bmp_set}
use forestdb.Common.{ℕ, Bool, if◌then◌else◌, leb, ◌/◌, ltb, ◌&&◌, true, ◌||◌, ◌==◌}
use Prim.Native.Nat.{ℕ}

-- The same revision number: `ret` as the branch leaves it.
unfoldable pub same_revnum : Superblock → ℕ → ℕ → Bool
same_revnum sb last_commit bid =
    if ltb bid sb.bmp_size
    then is_bmp_set (bytes sb.bmp) bid && ltb bid sb.cur_alloc_bid && leb last_commit bid
    else leb last_commit bid

-- At or behind the last commit, with another revision number.
unfoldable pub behind_commit : Superblock → ℕ → Bool
behind_commit sb bid = elim sb.bmp_prev [
  | none ↦ true
  | some prev ↦
      ltb bid sb.bmp_prev_size && is_bmp_set prev bid
      || ltb bid sb.bmp_size && is_bmp_set (bytes sb.bmp) bid
      || leb sb.bmp_size bid
]

unfoldable pub other_revnum : Superblock → ℕ → ℕ → Bool
unfolding behind_commit
other_revnum sb last_commit bid =
    leb last_commit bid && behind_commit sb bid
    || ltb bid sb.bmp_size && ltb bid sb.cur_alloc_bid && is_bmp_set (bytes sb.bmp) bid

-- `commit_pos` is the byte position `file->last_commit`, `lw_revnum` the last writable revision.
unfoldable pub sb_bmp_is_writable : Superblock → ℕ → ℕ → ℕ → ℕ → Bool
unfolding same_revnum other_revnum
sb_bmp_is_writable sb commit_pos blocksize lw_revnum bid =
    let last_commit = commit_pos / blocksize in
    if ltb bid sb.num_sb
    then true
    else if sb.bmp_revnum == lw_revnum
    then same_revnum sb last_commit bid
    else other_revnum sb last_commit bid
