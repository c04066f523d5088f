-- ===== src/Superblock/Barrier/Tests.antt =====
-- The barrier's theorems on a run of two threads.
use forestdb.Superblock.Barrier.{
  System, Reach, at_rest, act, place, run, here, next, announcing, draining, changing, checking,
  reading,
}
use forestdb.Superblock.Barrier.Exclusion.{change_excludes}
use forestdb.Common.{◌≢◌, ◌∷◌, false, true, arith, [], refl}

-- Thread 0 changes the bitmap, and thread 1 has just asked to read it.
abbrev one_changes : System
one_changes = record {
  threads = changing ∷ checking ∷ [];
  shared = record { rcount = 1; wcount = 1; locked = true };
}

one_changes-Reach : Reach 2 one_changes
unfolding at_rest act
one_changes-Reach =
    next
      (next
        (next (next here (run (at_rest 2) 0 false announcing _ (omega arith) refl))
          (run _ 0 false draining _ (omega arith) refl))
        (run _ 0 false changing _ (omega arith) refl))
      (run _ 1 true checking _ (omega arith) refl)

change_excludes_example : (place one_changes 1 ≢ reading) × (place one_changes 1 ≢ changing)
change_excludes_example =
    change_excludes one_changes-Reach 0 1 (omega arith) (omega arith) (λ e. omega arith) refl
