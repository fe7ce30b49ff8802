-- ===== src/ReadWrite/Fair.antt =====
-- include/zthread/FairReadWriteLock.h: a writer keeps the mutex while it holds the lock, a reader only
-- counts itself. `holder` is the thread that has `_lock`, whose own behaviour src/MutexImpl.h gives;
-- `_readers` is an int that does not wrap here.
pub mod Exclusion
use zthread.Base.{ℕ, Bool, true, false, Option, none, some, if◌then◌else◌}
use zthread.Base.Int.{ℤ, pos, suc_ℤ, pred_ℤ, is_positive, is_zero}
use zthread.Blocking.{Condition, quiet, signal, sleep, Outcome, returns, waits}

pub record ReadWriteLock : Type 0 where
  pub holder : Option ℕ
  pub cond : Condition
  pub readers : ℤ

abbrev pub init : ReadWriteLock
init = record { holder = none; cond = quiet; readers = pos 0 }

-- Each function begins when the thread has the mutex, which was free.
unfoldable pub read_acquire : ReadWriteLock → ReadWriteLock
read_acquire l = record l { readers = suc_ℤ l.readers }

-- The argument is whether the mutex was acquired in time.
unfoldable pub read_try_acquire : Bool → ReadWriteLock → Bool × ReadWriteLock
unfolding read_acquire
read_try_acquire in_time l = if in_time then (true, read_acquire l) else (false, l)

unfoldable pub read_release : ReadWriteLock → ReadWriteLock
read_release l =
    let l' = record l { readers = pred_ℤ l.readers } in
    if is_zero l'.readers then record l' { cond = signal l'.cond } else l'

-- The loop, each time that the thread has the mutex: `_cond.wait` lets go of it.
unfoldable pub write_acquire : ℕ → ReadWriteLock → Outcome ReadWriteLock (Unit {0})
write_acquire self l =
    if is_positive l.readers
    then waits (record l { cond = sleep self l.cond })
    else returns tt (record l { holder = some self })

-- The first argument is whether the mutex was acquired in time; how `_cond.wait(timeout)` ended is
-- dropped, and the loop goes on.
unfoldable pub write_try_acquire : Bool → ℕ → ReadWriteLock → Outcome ReadWriteLock Bool
write_try_acquire in_time self l =
    if in_time
    then (if is_positive l.readers
        then waits (record l { cond = sleep self l.cond })
        else returns true (record l { holder = some self }))
    else returns false l

unfoldable pub write_release : ReadWriteLock → ReadWriteLock
write_release l = record l { holder = none }
