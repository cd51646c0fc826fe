-- ===== src/Mutex/Examples.antt =====
-- A lock for writing that is released early, twice, and then taken again.
use sylar_leo.Base.{false, List, [], ◌∷◌}
use sylar_leo.Mutex.{
  wrlock_mutex, LockCall, calls_lock, calls_unlock, new_scoped_lock, run, destroy_lock, Alternates,
  destroy_lock-Alternates,
}

abbrev calls : List LockCall
calls = calls_unlock ∷ calls_unlock ∷ calls_lock ∷ []

destroy_lock-Alternates_example :
    Alternates wrlock_mutex false (destroy_lock (run calls (new_scoped_lock wrlock_mutex))).actions
destroy_lock-Alternates_example = destroy_lock-Alternates wrlock_mutex calls
