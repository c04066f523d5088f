-- ===== src/Superblock/Format/Restored.antt =====
-- The superblock that `_sb_read_given_no` makes of a block that holds the stored values.
use forestdb.Superblock.State.{Superblock, RsvBmp, RsvStatus, is_ready}
use forestdb.Superblock.Switch.{empty_doc}
use forestdb.Superblock.Format.{
  get_u64, read_values, entries, stored_values, fixed_values, rsv_size, rsv_offsets, offsets_of,
  bmp_size_to_num_docs, offset_array, read_fields, read_reserve,
}
use forestdb.Superblock.Format.Entries.{length-entries, entries-append, entries-all, entries-whole}
use forestdb.Common.{
  ℕ, Option, none, if◌then◌else◌, ◌≡◌, some, ◌==◌, replicate, [], blk_not_found, length, List, ◌<◌,
  ◌++◌, Bool-cases, ◌+◌, inl, arith, ap, ◌*◌, ◌∙◌, length-append, get_or, sym, inr, ◌≤◌, refl,
}

-- The superblock that a reader which had `into` takes from one that was written.
unfoldable pub restored : Superblock → Superblock → Superblock
restored into sb =
    let num_docs = bmp_size_to_num_docs sb.bmp_size in
    let size = rsv_size sb.rsv_bmp in
    let rsv_docs = bmp_size_to_num_docs size in
    record into {
      revnum = sb.revnum;
      bmp_revnum = sb.bmp_revnum;
      cur_alloc_bid = sb.cur_alloc_bid;
      last_hdr_bid = sb.last_hdr_bid;
      last_hdr_revnum = sb.last_hdr_revnum;
      min_live_hdr_revnum = sb.min_live_hdr_revnum;
      min_live_hdr_bid = sb.min_live_hdr_bid;
      num_init_free_blocks = sb.num_init_free_blocks;
      num_free_blocks = sb.num_free_blocks;
      bmp_size = sb.bmp_size;
      bmp = none;
      num_bmp_docs = num_docs;
      bmp_doc_offset =
          if num_docs == 0
          then into.bmp_doc_offset
          else some (entries num_docs 0 (offsets_of sb.bmp_doc_offset));
      bmp_docs = if num_docs == 0 then into.bmp_docs else replicate num_docs empty_doc;
      rsv_bmp =
          if size == 0
          then into.rsv_bmp
          else some (record {
            bmp_revnum = 0;
            bmp_size = size;
            bmp = none;
            bmp_idx = [];
            bmp_doc_offset = offset_array rsv_docs (rsv_offsets sb.rsv_bmp);
            bmp_docs = replicate rsv_docs empty_doc;
            num_bmp_docs = rsv_docs;
            num_free_blocks = 0;
            cur_alloc_bid = blk_not_found;
            min_live_hdr_revnum = 0;
            min_live_hdr_bid = 0;
            status = RsvStatus.initializing;
          });
    }

length-rsv_offsets :
    (r : Option RsvBmp) → length (rsv_offsets r) ≡ bmp_size_to_num_docs (rsv_size r)
unfolding rsv_size rsv_offsets bmp_size_to_num_docs
length-rsv_offsets none = refl
length-rsv_offsets (some r) = elim (Bool-cases (is_ready r.status)) [
  | inl e ↦ rw (e, length-entries (bmp_size_to_num_docs r.bmp_size) 0 (offsets_of r.bmp_doc_offset))
  | inr e ↦ rw e
]

-- The two runs of offsets, found behind the fixed values.
first_run :
    (hd xs ys : List ℕ) (n : ℕ) → length xs ≡ n → entries n (length hd) (hd ++ (xs ++ ys)) ≡ xs
first_run hd xs ys n e =
    ap (λ t. entries n t (hd ++ (xs ++ ys))) (omega arith)
    ∙ entries-append n 0 hd (xs ++ ys)
    ∙ ap (λ t. entries t 0 (xs ++ ys)) (sym e)
    ∙ entries-all xs ys

second_run :
    (hd xs ys : List ℕ) (n : ℕ)
    → length ys ≡ n
    → entries n (length hd + length xs) (hd ++ (xs ++ ys)) ≡ ys
second_run hd xs ys n e =
    entries-append n (length xs) hd (xs ++ ys)
    ∙ ap (λ t. entries n t (xs ++ ys)) (omega arith)
    ∙ entries-append n 0 xs ys
    ∙ ap (λ t. entries t 0 ys) (sym e)
    ∙ entries-whole ys

-- What a block must hold for its values to be read from it.
pub record Holds (buf : List ℕ) (vs : List ℕ) : Type 0 where
  pub value : (k : ℕ) → k < length vs → get_u64 buf (8 * k) ≡ get_or vs k 0
  pub run : (n k : ℕ) → k + n ≤ length vs → read_values n buf (8 * k) ≡ entries n k vs

pub length-stored_values :
    (version : ℕ) (sb : Superblock)
    → length (stored_values version sb)
      ≡ 12 + bmp_size_to_num_docs sb.bmp_size + bmp_size_to_num_docs (rsv_size sb.rsv_bmp)
unfolding stored_values
length-stored_values version sb =
    let nd = bmp_size_to_num_docs sb.bmp_size in
    let offs = offsets_of sb.bmp_doc_offset in
    omega (
      arith,
      length-append (entries nd 0 offs) (rsv_offsets sb.rsv_bmp),
      length-entries nd 0 offs,
      length-rsv_offsets sb.rsv_bmp,
    )

pub Holds-read_fields :
    (version : ℕ) (sb into : Superblock) (buf : List ℕ)
    → Holds buf (stored_values version sb)
    → read_fields into buf ≡ restored into sb
unfolding restored stored_values read_fields read_reserve
Holds-read_fields version sb into buf h =
    let nd = bmp_size_to_num_docs sb.bmp_size in
    let nr = bmp_size_to_num_docs (rsv_size sb.rsv_bmp) in
    let offs = offsets_of sb.bmp_doc_offset in
    let lengths = length-stored_values version sb in
    let at = λ (k : ℕ) (p : k < 12). h.value k (omega (arith, lengths)) in
    let hd = fixed_values version sb in
    let docs : read_values nd buf 96 ≡ entries nd 0 offs =
      h.run nd 12 (omega (arith, lengths))
      ∙ first_run hd (entries nd 0 offs) (rsv_offsets sb.rsv_bmp) nd (length-entries nd 0 offs) in
    let behind : 96 + 8 * nd ≡ 8 * (12 + nd) = omega arith in
    let rsv_docs : read_values nr buf (96 + 8 * nd) ≡ rsv_offsets sb.rsv_bmp =
      ap (read_values nr buf) behind
      ∙ h.run nr (12 + nd) (omega (arith, lengths))
      ∙ ap (λ t. entries nr (12 + t) (stored_values version sb)) (sym (length-entries nd 0 offs))
      ∙ second_run hd (entries nd 0 offs) (rsv_offsets sb.rsv_bmp) nr
          (length-rsv_offsets sb.rsv_bmp) in
    rw (
      at 1 (omega arith),
      at 2 (omega arith),
      at 3 (omega arith),
      at 4 (omega arith),
      at 5 (omega arith),
      at 6 (omega arith),
      at 7 (omega arith),
      at 8 (omega arith),
      at 9 (omega arith),
      at 10 (omega arith),
      at 11 (omega arith),
      docs,
      rsv_docs,
    )
