-- ===== src/Superblock/Barrier/Progress.antt =====
-- The barrier never blocks all threads.
use forestdb.Common.{Bool, ◌≡◌, true, false}
use forestdb.Superblock.Barrier.{Place, waiting, draining, Bool, ◌≡◌}

-- The two places where a thread may have to wait.
abbrev may_wait : Place → Bool
may_wait waiting = true
may_wait draining = true
may_wait _ = false

abbrev is_draining : Place → Bool
is_draining draining = true
is_draining _ = false
