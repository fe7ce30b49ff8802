-- ===== src/Mutex/Tests.antt =====
-- src/MutexImpl.h: tests.
use zthread.Base.{ℕ, zero, suc, ◌≡◌, refl, true, false, none, some, List, [], ◌∷◌, ◌++◌}
use zthread.Exceptions.{ok}
use zthread.Status.{State}
use zthread.Status
use zthread.Monitor.{Monitor, interrupts, notifies, perform_all}
use zthread.Monitor
use zthread.Monitor.Wait.{ok as success}
use zthread.Waiters.{Monitors, update, remove}
use zthread.Waiters.Stay.{Shared, During, on_object}
use zthread.Waiters.Laws.{notified}
use zthread.Mutex.{Mutex, Round, acquire, try_acquire, release}
use zthread.Mutex.Release.{release_hands_over, release_spins, freed}
use zthread.Mutex.Acquire.{
  acquire_queues, acquire_handed, lock_from_stale_signal, try_lock_at_once, left, joined,
}

abbrev push_back : ℕ → List ℕ → List ℕ
push_back t ts = ts ++ t ∷ []

-- Thread 1 holds its own monitor; the others wait.
abbrev monitors : Monitors
monitors zero = Monitor.init
monitors (suc zero) = record Monitor.init { locked = true }
monitors (suc (suc t)) = record Monitor.init { waiting = true }

abbrev contended : Shared Mutex
contended = record {
  object = record { waiters = 1 ∷ 2 ∷ 3 ∷ []; owner = some 7 };
  monitors = monitors;
}

abbrev still : Round
still = record { between = (λ ms. ms) ∷ (λ ms. ms) ∷ []; others = λ s. s }

release_hands_over_example :
    release 7 (still ∷ []) contended
    ≡ some
        (ok tt, record (freed contended) { monitors = update monitors 2 (notified (monitors 2)) })
release_hands_over_example =
    release_hands_over 7 still [] contended (1 ∷ []) (3 ∷ []) 2 refl refl (refl, tt) (refl, refl)

-- Thread 2 has been interrupted and has not come back from its wait yet.
abbrev interrupted_waiter : Shared Mutex
interrupted_waiter = record {
  object = record { waiters = 2 ∷ 3 ∷ []; owner = some 7 };
  monitors = λ _. record Monitor.init {
    status = record { pending = Status.only_interrupted; mask = Status.anything };
    waiting = true;
  };
}

release_spins_example : release 7 (still ∷ still ∷ []) interrupted_waiter ≡ none
release_spins_example =
    release_spins 7 (still ∷ still ∷ []) interrupted_waiter 2 (3 ∷ []) refl refl
      (((λ ms h. h), ((λ ms h. h), tt)), (((λ ms h. h), ((λ ms h. h), tt)), tt)) (refl, refl)

-- The owner releases while thread 6 waits.
abbrev handed : During Mutex
handed = record {
  clock = record { seconds = 0; milliseconds = 0 };
  wakeups = λ _. record { calls = notifies ∷ interrupts 1 ∷ []; errno = success } ∷ [];
  others = on_object (λ o. record o { owner = none });
}

abbrev taken : Shared Mutex
taken = record { object = record { waiters = []; owner = some 7 }; monitors = λ _. Monitor.init }

acquire_handed_example :
    (s' : Shared Mutex) × (acquire push_back 6 handed taken ≡ some (ok tt, s'))
    × (s'.object ≡ left 6 true (joined push_back 6 handed taken).object)
unfolding perform_all Status.pending
acquire_handed_example =
    acquire_handed push_back 6 handed taken [] (interrupts 1 ∷ []) success [] refl refl refl refl
      refl refl

-- What thread 6 comes back to.
finished :
    (s' : Shared Mutex) × (acquire push_back 6 handed taken ≡ some (ok tt, s'))
    × (s'.object ≡ left 6 true (joined push_back 6 handed taken).object)
unfolding perform_all Status.pending
finished =
    acquire_handed push_back 6 handed taken [] (interrupts 1 ∷ []) success [] refl refl refl refl
      refl refl

acquire_queues_example : finished.0.object ≡ left 6 true (joined push_back 6 handed taken).object
acquire_queues_example = acquire_queues push_back 6 handed taken refl refl finished.1

-- Thread 6 was notified when it was leaving an earlier wait; thread 7 keeps the mutex.
abbrev stale : Shared Mutex
stale = record taken {
  monitors = λ _. record Monitor.init {
    status = record { pending = Status.only_signaled; mask = Status.anything };
  };
}

abbrev alone : During Mutex
alone = record handed { wakeups = λ _. []; others = λ s. s }

lock_from_stale_signal_example :
    (s' : Shared Mutex) × (acquire push_back 6 alone stale ≡ some (ok tt, s'))
    × (s'.object ≡ left 6 true (joined push_back 6 alone stale).object)
lock_from_stale_signal_example = lock_from_stale_signal push_back 6 alone stale refl refl refl refl

-- Thread 6 is then the owner, though thread 7 has not released.
stale_owner : (left 6 true (joined push_back 6 alone stale).object).owner ≡ some 6
stale_owner = refl

try_lock_at_once_example : try_acquire push_back 6 0 alone contended ≡ some (ok false, contended)
unfolding remove
try_lock_at_once_example = try_lock_at_once push_back 6 alone contended refl
