-- ===== src/Singleton/Tests.antt =====
-- include/zthread/Singleton.h: tests.
use zthread.Base.{ℕ, ◌≤◌, ◌≡◌, refl}
use zthread.Singleton.{
  System, Place, Stage, start, moved, locked, made, stored, left, Reach, here, next, misses, locks,
  misses_again, finds_again, makes, stores, unlocks,
}
use zthread.Singleton.One.{one_instance}

-- Threads 1 and 2 both find no instance at first; thread 1 makes it.
abbrev first_made : System
first_made = left 1 0 (
    stored 1 0 (
      made 1 (
        locked 1 Stage.creating (
          locked 1 Stage.testing
            (moved 1 Place.inside (moved 2 Place.checked (moved 1 Place.checked start)))))))

first_made-Reach : Reach first_made
first_made-Reach =
    next
      (next
        (next
          (next
            (next (next (next here (misses 1 refl refl)) (misses 2 refl refl)) (locks 1 refl refl))
            (misses_again 1 refl refl))
          (makes 1 refl))
        (stores 1 0 refl))
      (unlocks 1 0 refl refl)

-- Thread 2 gets the lock then, and finds it.
abbrev both_returned : System
both_returned =
    left 2 0 (locked 2 Stage.unlocking (locked 2 Stage.testing (moved 2 Place.inside first_made)))

both_returned-Reach : Reach both_returned
both_returned-Reach =
    next (next (next first_made-Reach (locks 2 refl refl)) (finds_again 2 0 refl refl))
      (unlocks 2 0 refl refl)

one_instance_example : (both_returned.created ≤ 1) × (◌≡◌ {A = ℕ} 0 0)
one_instance_example = one_instance both_returned-Reach 1 2 0 0 refl refl
