-- ===== src/Superblock/Barrier.antt =====
-- The barrier between readers of the bitmap and the writer that exchanges it, of
-- src/superblock.cc: `sb_bmp_barrier_on`, `sb_bmp_barrier_off`, `sb_bmp_change_begin` and
-- `sb_bmp_change_end`, as the atomic steps of any number of threads. The counters are far from
-- wrapping, and atomic operations are sequentially consistent, as by default in C++.
pub mod Weights
pub mod Exclusion
pub mod Progress
mod Tests
use forestdb.Common.{
  ℕ, Bool, get_or, replicate, List, ◌<◌, Option, false, some, length, ◌≡◌, ◌+◌, set, if◌then◌else◌,
  none, true, ◌==◌, ◌-◌,
}

-- Where a thread stands. Reading is what it does between `barrier_on` and `barrier_off`,
-- changing between `change_begin` and `change_end`.
pub data Place : Type 0 where
  idle : Place
  checking backing_off waiting admitted releasing reading : Place
  announcing draining changing unlocking : Place

-- `bmp_rcount`, `bmp_wcount` and `bmp_lock`
pub record Shared : Type 0 where
  pub rcount : ℕ
  pub wcount : ℕ
  pub locked : Bool

-- The next atomic step of a thread, if it is not blocked. An idle thread becomes a reader or a
-- writer as `reader` says; a draining one spins until `bmp_rcount` is zero.
pub act : Bool → Place → Shared → Option (Place × Shared)
act true idle s = some (checking, record s { rcount = s.rcount + 1 })
act false idle s = if s.locked then none else some (announcing, record s { locked = true })
act _ checking s = if s.wcount == 0 then some (reading, s) else some (backing_off, s)
act _ backing_off s = some (waiting, record s { rcount = s.rcount - 1 })
act _ waiting s = if s.locked then none else some (admitted, record s { locked = true })
act _ admitted s = some (releasing, record s { rcount = s.rcount + 1 })
act _ releasing s = some (reading, record s { locked = false })
act _ reading s = some (idle, record s { rcount = s.rcount - 1 })
act _ announcing s = some (draining, record s { wcount = s.wcount + 1 })
act _ draining s = if s.rcount == 0 then some (changing, s) else none
act _ changing s = some (unlocking, record s { wcount = s.wcount - 1 })
act _ unlocking s = some (idle, record s { locked = false })

pub record System : Type 0 where
  pub threads : List Place
  pub shared : Shared

abbrev pub place : System → ℕ → Place
place s i = get_or s.threads i idle

-- Any thread may take the next step.
pub data Step : System → System → Type 0 where
  run :
      (s : System) (i : ℕ) (reader : Bool) (q : Place) (shared' : Shared)
      → i < length s.threads
      → act reader (place s i) s.shared ≡ some (q, shared')
      → Step s (record { threads = set s.threads i q; shared = shared' })

-- `n` threads at rest, and what is reached from there.
pub at_rest : ℕ → System
at_rest n = record {
  threads = replicate n idle;
  shared = record { rcount = 0; wcount = 0; locked = false };
}

pub data Reach (n : ℕ) : System → Type 0 where
  here : Reach n (at_rest n)
  next : {s t : System} → Reach n s → Step s t → Reach n t
