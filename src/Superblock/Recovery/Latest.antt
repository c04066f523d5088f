-- ===== src/Superblock/Recovery/Latest.antt =====
-- `sb_read_latest` takes the readable superblock with the highest revision below the limit.
use forestdb.Superblock.State.{Filemgr, Status, success, sb_read_fail}
use forestdb.Superblock.Recovery.{
  is_success, Best, revnum_limit, read_one, better, read_loop, latest, sb_read_latest,
}
use forestdb.Common.{
  ℕ, List, Bool, ◌≢◌, ◌<◌, ◌+◌, ◌≡◌, true, ◌≤◌, none, ◌&&◌, arith, Bool-cases, subst, suc, ◌==◌,
  inl, leb, some, refl, inr, ltb, add64, zero, ap, [], if◌then◌else◌, blk_not_found, mul64,
}

module _ (get_checksum : List ℕ → ℕ → ℕ) (file : Filemgr) (num_sb : ℕ) (got : ℕ → Bool) where
  -- Superblock number `i` can be read, and is older than the limit.
  pub record Candidate (i : ℕ) : Type 0 where
    pub inside : i < num_sb
    pub readable : is_success (read_one get_checksum file num_sb got i).0 ≡ true
    pub older : (read_one get_checksum file num_sb got i).1.revnum < revnum_limit file.sb

  abbrev pub revnum_of : ℕ → ℕ
  revnum_of i = (read_one get_checksum file num_sb got i).1.revnum

  abbrev takes : ℕ → Best → Bool
  takes n b =
      is_success ((read_one get_checksum file num_sb got n).0)
      && leb b.max_revnum (revnum_of n)
      && ltb (revnum_of n) (revnum_limit file.sb)

  -- The best of the superblocks below `n`.
  record IsBest (n : ℕ) (b : Best) : Type 0 where
    found : b.max_sb_no ≢ num_sb → Candidate b.max_sb_no × (revnum_of b.max_sb_no ≡ b.max_revnum)
    none_yet : b.max_sb_no ≡ num_sb → b.max_revnum ≡ 0
    highest : (j : ℕ) → j < n → Candidate j → (b.max_sb_no ≢ num_sb) × (revnum_of j ≤ b.max_revnum)

  taken-IsBest :
      (n : ℕ) (b : Best)
      → n < num_sb
      → IsBest n b
      → Candidate n
      → b.max_revnum ≤ revnum_of n
      → IsBest (n + 1) (record { max_sb_no = n; max_revnum = revnum_of n })
  taken-IsBest n b h v c above = record {
    found = λ ne. (c, refl);
    none_yet = λ e. absurd (omega arith);
    highest = λ j k d. (
      λ e. omega arith,
      elim (Bool-cases (j == n)) [
        | inl same ↦ (let e : j ≡ n = ground arith in omega (arith, ap revnum_of e))
        | inr other ↦ (let k' : j < n = ground arith in omega (arith, (v.highest j k' d).1))
      ],
    );
  }

  kept-IsBest :
      (n : ℕ) (b : Best)
      → n < num_sb
      → IsBest n b
      → (Candidate n → revnum_of n < b.max_revnum)
      → IsBest (n + 1) b
  kept-IsBest n b h v below = record {
    found = v.found;
    none_yet = v.none_yet;
    highest = λ j k d. elim (Bool-cases (j == n)) [
      | inl same ↦
          (let e : j ≡ n = ground arith in
            let less : revnum_of n < b.max_revnum = below (subst Candidate e d) in
            (λ none_found. omega (arith, v.none_yet none_found), omega (arith, ap revnum_of e)))
      | inr other ↦ (let k' : j < n = ground arith in v.highest j k' d)
    ];
  }

  better-IsBest :
      (n : ℕ) (b : Best)
      → n < num_sb
      → IsBest n b
      → IsBest (n + 1) (better get_checksum file num_sb got (revnum_limit file.sb) n b)
  unfolding better
  better-IsBest n b h v = elim (Bool-cases (takes n b)) [
    | inl e ↦ rw e (
        taken-IsBest n b h v (record { inside = h; readable = ground arith; older = ground arith })
          (ground arith))
    | inr e ↦
        rw e (kept-IsBest n b h v (λ c. let r = c.readable in let o = c.older in ground arith))
  ]

  read_loop-IsBest :
      (i n : ℕ) (b : Best)
      → i + n ≡ num_sb
      → IsBest i b
      → IsBest num_sb (read_loop get_checksum file num_sb got (revnum_limit file.sb) i n b)
  unfolding read_loop
  read_loop-IsBest i zero b e v = subst (λ t. IsBest t b) (omega arith) v
  read_loop-IsBest i (suc n) b e v =
      read_loop-IsBest (i + 1) n (better get_checksum file num_sb got (revnum_limit file.sb) i b)
        (omega arith) (better-IsBest i b (omega arith) v)

  latest-IsBest : IsBest num_sb (latest get_checksum file num_sb got)
  unfolding latest
  latest-IsBest =
      read_loop-IsBest 0 num_sb (record { max_sb_no = num_sb; max_revnum = 0 }) (omega arith)
        (record {
          found = λ ne. absurd (ne refl);
          none_yet = λ e. refl;
          highest = λ j k d. absurd (omega arith);
        })

  -- The result of `sb_read_latest`: an error if no superblock can be read that is older than the
  -- one in use, and else the newest of them, ready to write the next revision.
  pub data IsLatest : Status × Filemgr → Type 0 where
    nothing : ((i : ℕ) → Candidate i → ⊥) → IsLatest (sb_read_fail, record file { sb = none })
    newest :
        (i : ℕ)
        → Candidate i
        → ((j : ℕ) → Candidate j → revnum_of j ≤ revnum_of i)
        → IsLatest (
          success,
          record file {
            sb = some (record ((read_one get_checksum file num_sb got i).1) {
              revnum = add64 (revnum_of i) 1;
              bmp_idx = [];
            });
            last_commit =
                if (read_one get_checksum file num_sb got i).1.cur_alloc_bid == blk_not_found
                then file.last_commit
                else mul64
                    ((read_one get_checksum file num_sb got i).1.cur_alloc_bid)
                    file.blocksize;
          },
        )

  -- `sb_read_latest` fails exactly when no superblock below the revision limit can be read; else
  -- it takes the one with the highest revision number among them.
  pub sb_read_latest-IsLatest : IsLatest (sb_read_latest get_checksum file num_sb got)
  unfolding sb_read_latest
  sb_read_latest-IsLatest =
      let v = latest-IsBest in
      elim (Bool-cases ((latest get_checksum file num_sb got).max_sb_no == num_sb)) [
        | inl e ↦ rw e (nothing (λ i c. (v.highest i c.inside c).0 (ground arith)))
        | inr e ↦
            let f = v.found (λ same. ground arith) in
            rw e (
              newest (latest get_checksum file num_sb got).max_sb_no (f.0)
                (λ j c. omega (arith, f.1, (v.highest j c.inside c).1)))
      ]
