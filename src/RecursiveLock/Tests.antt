-- ===== src/RecursiveLock/Tests.antt =====
-- src/vanilla/DualMutexRecursiveLock.h: tests.
use zthread.Base.{ℕ, ◌≡◌, refl, some, arith}
use zthread.RecursiveLock.{
  System, start, locked, moved, marked, again, Reach, here, next, tries_free, tries_locked, marks,
  enters_again, Place,
}
use zthread.RecursiveLock.Exclusion.{dual_exclusion}

-- Thread 4 acquires the lock, and again while thread 5 tries to.
abbrev once : System
once = marked 4 (locked 4 start)

once-Reach : Reach once
once-Reach = next (next here (tries_free 4 refl refl)) (marks 4 refl)

abbrev twice : System
twice = again 4 (moved 5 Place.checking (moved 4 Place.checking once))

twice-Reach : Reach twice
twice-Reach =
    next (next (next once-Reach (tries_locked 4 refl refl)) (tries_locked 5 refl refl))
      (enters_again 4 refl refl (omega arith))

dual_exclusion_example : (◌≡◌ {A = ℕ} 4 4) × (twice.owner ≡ some 4) × (twice.count ≡ 2)
dual_exclusion_example = dual_exclusion twice-Reach 4 4 (omega arith) (omega arith)
