-- ===== src/RecursiveMutex/Tests.antt =====
-- src/RecursiveMutexImpl.cxx: tests.
use zthread.Base.{zero, suc, ◌≡◌, refl, true, some, [], ◌∷◌, arith}
use zthread.Exceptions.{ok}
use zthread.Monitor
use zthread.Waiters.{Monitors, update}
use zthread.Waiters.Laws.{notified}
use zthread.Waiters.Stay.{Shared, During}
use zthread.RecursiveMutex.{RecursiveMutex, Round, release}
use zthread.RecursiveMutex.Nesting.{then_do, acquire_times, release_times, release-acquire_times}
use zthread.RecursiveMutex.Handover.{release_last, freed}

abbrev monitors : Monitors
monitors zero = Monitor.init
monitors (suc zero) = record Monitor.init { locked = true }
monitors (suc (suc t)) = record Monitor.init { waiting = true }

-- Thread 7 owns the mutex, thread 1 is on its way in, thread 2 waits.
abbrev contended : Shared RecursiveMutex
contended = record {
  object = record { waiters = 1 ∷ 2 ∷ []; owner = some 7; count = 1 };
  monitors = monitors;
}

abbrev still : Round
still = record { between = (λ ms. ms) ∷ []; others = λ s. s }

abbrev alone : During RecursiveMutex
alone = record {
  clock = record { seconds = 0; milliseconds = 0 };
  wakeups = λ _. [];
  others = λ s. s;
}

release-acquire_times_example :
    then_do (release_times 3 7 (still ∷ [])) (acquire_times 3 7 alone contended)
    ≡ some (ok tt, contended)
release-acquire_times_example =
    release-acquire_times 7 alone (still ∷ []) 3 contended refl (omega arith) (omega arith)

release_last_example :
    release 7 (still ∷ []) contended
    ≡ some
        (ok tt, record (freed contended) { monitors = update monitors 2 (notified (monitors 2)) })
release_last_example =
    (release_last 7 still [] contended (1 ∷ []) [] 2).0 refl refl refl (refl, tt) (refl, refl)
