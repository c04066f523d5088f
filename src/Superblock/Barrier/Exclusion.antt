-- ===== src/Superblock/Barrier/Exclusion.antt =====
-- While a thread changes the bitmap, no other thread reads or changes it.
use forestdb.Superblock.Barrier.{
  here, next, Place, idle, checking, backing_off, waiting, admitted, releasing, reading, announcing,
  draining, changing, unlocking, Shared, act, System, ℕ, ◌≡◌, Bool, Step, Reach, at_rest, run,
  place,
}
use forestdb.Superblock.Barrier.Weights.{
  total, total-replicate, total-one, total-set, total-two, total_mono, total_sum,
}
use forestdb.Common.{
  ◌≡◌, Bool, ℕ, ◌⊎◌, if◌then◌else◌, some, ◌≤◌, ◌+◌, arith, true, false, sym, ◌<◌, length, inl, ◌≢◌,
  ap, refl,
}

-- Whether a place is counted in `bmp_rcount`, in `bmp_wcount`, and as the holder of the lock.
abbrev pub counted : Place → ℕ
counted checking = 1
counted backing_off = 1
counted releasing = 1
counted reading = 1
counted _ = 0

abbrev pub writing : Place → ℕ
writing draining = 1
writing changing = 1
writing _ = 0

abbrev pub holding : Place → ℕ
holding admitted = 1
holding releasing = 1
holding announcing = 1
holding draining = 1
holding changing = 1
holding unlocking = 1
holding _ = 0

abbrev pub at_changing : Place → ℕ
at_changing changing = 1
at_changing _ = 0

abbrev pub at_reading : Place → ℕ
at_reading reading = 1
at_reading _ = 0

abbrev at_releasing : Place → ℕ
at_releasing releasing = 1
at_releasing _ = 0

abbrev pub lock_count : Shared → ℕ
lock_count s = if s.locked then 1 else 0

-- The shared variables count the threads, and changing excludes reading.
pub record IsCounted (s : System) : Type 0 where
  pub readers : s.shared.rcount ≡ total counted s.threads
  pub writers : s.shared.wcount ≡ total writing s.threads
  pub holders : lock_count s.shared ≡ total holding s.threads
  pub apart : (total at_changing s.threads ≡ 0) ⊎ (total at_reading s.threads ≡ 0)

-- One step moves each count as the thread moves.
act_counts :
    (reader : Bool) (p : Place) (s : Shared) (q : Place) (s' : Shared)
    → act reader p s ≡ some (q, s')
    → counted p ≤ s.rcount
    → writing p ≤ s.wcount
    → holding p ≤ lock_count s
    → (s'.rcount + counted p ≡ s.rcount + counted q)
      × (s'.wcount + writing p ≡ s.wcount + writing q)
      × (lock_count s' + holding p ≡ lock_count s + holding q)
unfolding act
act_counts true idle s q s' e a b c = ground arith
act_counts false idle s q s' e a b c = ground arith
act_counts _ checking s q s' e a b c = ground arith
act_counts _ backing_off s q s' e a b c = ground arith
act_counts _ waiting s q s' e a b c = ground arith
act_counts _ admitted s q s' e a b c = ground arith
act_counts _ releasing s q s' e a b c = ground arith
act_counts _ reading s q s' e a b c = ground arith
act_counts _ announcing s q s' e a b c = ground arith
act_counts _ draining s q s' e a b c = ground arith
act_counts _ changing s q s' e a b c = ground arith
act_counts _ unlocking s q s' e a b c = ground arith

-- What a step may enter, and what it found when it did.
act_enters :
    (reader : Bool) (p : Place) (s : Shared) (q : Place) (s' : Shared)
    → act reader p s ≡ some (q, s')
    → ((at_changing q ≤ at_changing p) × (at_reading q ≤ at_reading p))
      ⊎ ((at_changing q ≡ 0) × (s.wcount ≡ 0))
      ⊎ ((at_changing q ≡ 0) × (at_releasing p ≡ 1))
      ⊎ ((at_reading q ≡ 0) × (s.rcount ≡ 0))
unfolding act
act_enters true idle s q s' e = ground arith
act_enters false idle s q s' e = ground arith
act_enters _ checking s q s' e = ground arith
act_enters _ backing_off s q s' e = ground arith
act_enters _ waiting s q s' e = ground arith
act_enters _ admitted s q s' e = ground arith
act_enters _ releasing s q s' e = ground arith
act_enters _ reading s q s' e = ground arith
act_enters _ announcing s q s' e = ground arith
act_enters _ draining s q s' e = ground arith
act_enters _ changing s q s' e = ground arith
act_enters _ unlocking s q s' e = ground arith

changing-le-writing : (p : Place) → at_changing p ≤ writing p
changing-le-writing changing = omega arith
changing-le-writing _ = omega arith

reading-le-counted : (p : Place) → at_reading p ≤ counted p
reading-le-counted reading = omega arith
reading-le-counted _ = omega arith

both-le-holding : (p : Place) → at_changing p + at_releasing p ≤ holding p
both-le-holding changing = omega arith
both-le-holding releasing = omega arith
both-le-holding _ = omega arith

Step-IsCounted : {s t : System} → Step s t → IsCounted s → IsCounted t
Step-IsCounted (run s i reader q shared' inside e) v =
    let p = place s i in
    let ps = s.threads in
    let counts =
      act_counts reader p s.shared q shared' e
        (omega (arith, v.readers, total-one counted ps i inside))
        (omega (arith, v.writers, total-one writing ps i inside))
        (omega (arith, v.holders, total-one holding ps i inside)) in
    record {
      readers = omega (arith, counts.0, v.readers, total-set counted ps i q inside);
      writers = omega (arith, counts.1, v.writers, total-set writing ps i q inside);
      holders = omega (arith, counts.2, v.holders, total-set holding ps i q inside);
      apart = ground (
        arith,
        v.apart,
        v.readers,
        v.writers,
        v.holders,
        act_enters reader p s.shared q shared' e,
        total-set at_changing ps i q inside,
        total-set at_reading ps i q inside,
        total-one at_releasing ps i inside,
        total_mono at_changing writing ps changing-le-writing,
        total_mono at_reading counted ps reading-le-counted,
        total_sum at_changing at_releasing holding ps both-le-holding,
      );
    }

pub Reach-IsCounted : {n : ℕ} {s : System} → Reach n s → IsCounted s
unfolding at_rest
Reach-IsCounted {n} here = record {
  readers = sym (total-replicate counted n refl);
  writers = sym (total-replicate writing n refl);
  holders = sym (total-replicate holding n refl);
  apart = inl (total-replicate at_changing n refl);
}
Reach-IsCounted (next r st) = Step-IsCounted st (Reach-IsCounted r)

-- With any number of threads and in any order of their steps, while one thread changes the bitmap
-- between `sb_bmp_change_begin` and `sb_bmp_change_end`, no thread is between `sb_bmp_barrier_on`
-- and `sb_bmp_barrier_off`, and no other thread changes the bitmap.
pub change_excludes :
    {n : ℕ} {s : System} (r : Reach n s) (i j : ℕ)
    → i < length s.threads
    → j < length s.threads
    → i ≢ j
    → place s i ≡ changing
    → (place s j ≢ reading) × (place s j ≢ changing)
change_excludes {s} r i j h k ne c = (no_reader, no_writer)
  where
    v : IsCounted s
    v = Reach-IsCounted r

    no_reader : place s j ≢ reading
    no_reader e = ground (
      arith,
      v.apart,
      ap at_changing c,
      ap at_reading e,
      total-one at_changing s.threads i h,
      total-one at_reading s.threads j k,
    )

    no_writer : place s j ≢ changing
    no_writer e =
        ground
          (arith, v.holders, ap holding c, ap holding e, total-two holding s.threads i j h k ne)
