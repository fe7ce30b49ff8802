-- ===== src/Semaphore/Tests.antt =====
-- src/SemaphoreImpl.h: tests.
use zthread.Base.{ℕ, zero, suc, ◌≡◌, refl, inl, inr, true, false, some, List, [], ◌∷◌, ◌++◌}
use zthread.Base.Int.{pos, negsuc}
use zthread.Exceptions.{ok}
use zthread.Status.{State}
use zthread.Status
use zthread.Monitor.{Monitor, interrupts, notifies, interrupt, notify, perform_all}
use zthread.Monitor
use zthread.Monitor.Wait.{ok as success}
use zthread.Waiters.{Monitors, update, attempt}
use zthread.Waiters.Passes.{wake_first}
use zthread.Waiters.Stay.{Shared, During, on_object}
use zthread.Waiters.Laws.{busy_of, notified}
use zthread.Semaphore.{Semaphore, finish_acquire, acquire, try_acquire, release, release_pass}
use zthread.Semaphore.Release.{release_wakes, release_returns, raised}
use zthread.Semaphore.System
use zthread.Semaphore.System.Permits.{plus, permits_accounted}
use zthread.Semaphore.System.Bound.{AtMost, count_within_bound}
use zthread.Semaphore.Acquire.{
  acquire_accounts, acquire_notified, permit_from_stale_signal, try_acquire_at_once, left, joined,
}

abbrev push_back : ℕ → List ℕ → List ℕ
push_back t ts = ts ++ t ∷ []

-- Thread 1 holds its monitor, thread 2 is about to leave with an interruption, thread 3 waits.
abbrev monitors : Monitors
monitors zero = Monitor.init
monitors (suc zero) = record Monitor.init { locked = true }
monitors (suc (suc zero)) = record Monitor.init {
  status = record { pending = Status.only_interrupted; mask = Status.anything };
  waiting = true;
}
monitors (suc (suc (suc t))) = record Monitor.init { waiting = true }

abbrev three_waiters : Shared Semaphore
three_waiters = record {
  object = record {
    waiters = 1 ∷ 2 ∷ 3 ∷ 4 ∷ [];
    count = pos 0;
    max_count = pos 5;
    checked = true;
    entry_count = pos 4;
  };
  monitors = monitors;
}

release_wakes_example :
    release [] three_waiters
    ≡ some (ok tt, raised (1 ∷ 4 ∷ []) (update monitors 3 (notified (monitors 3))) three_waiters)
unfolding busy_of
release_wakes_example =
    release_wakes [] three_waiters (1 ∷ 2 ∷ []) (4 ∷ []) 3 refl refl
      (inl refl, (inr (refl, refl), tt)) (refl, refl)

-- All let go of their monitors.
abbrev let_go : Shared Semaphore → Shared Semaphore
let_go s = record s { monitors = λ _. Monitor.init }

abbrev one_busy : Shared Semaphore
one_busy = record three_waiters { object = record (three_waiters.object) { waiters = 1 ∷ [] } }

release_returns_example :
    (s' : Shared Semaphore) × (release (let_go ∷ []) one_busy ≡ some (ok tt, s'))
unfolding release_pass attempt wake_first Monitor.try_acquire
release_returns_example = (release_returns let_go [] one_busy (refl, tt)).1 refl

abbrev nobody_there : Shared Semaphore
nobody_there = record {
  object = record {
    waiters = [];
    count = pos 0;
    max_count = pos 5;
    checked = true;
    entry_count = pos 0;
  };
  monitors = λ _. Monitor.init;
}

abbrev others_release : Shared Semaphore → Shared Semaphore
others_release s = on_object (λ o. record o { count = pos 1 }) s

abbrev signaled_in_time : During Semaphore
signaled_in_time = record {
  clock = record { seconds = 0; milliseconds = 0 };
  wakeups = λ _. record { calls = notifies ∷ []; errno = success } ∷ [];
  others = others_release;
}

acquire_notified_example :
    (s' : Shared Semaphore) × (acquire push_back 6 signaled_in_time nobody_there ≡ some (ok tt, s'))
    × (s'.object ≡ left 6 true (joined 6 (push_back 6) signaled_in_time nobody_there).object)
unfolding perform_all Status.pending
acquire_notified_example =
    acquire_notified push_back 6 signaled_in_time nobody_there [] [] success [] refl refl refl refl
      refl

-- What thread 6 comes back to.
finished :
    (s' : Shared Semaphore) × (acquire push_back 6 signaled_in_time nobody_there ≡ some (ok tt, s'))
    × (s'.object ≡ left 6 true (joined 6 (push_back 6) signaled_in_time nobody_there).object)
unfolding perform_all Status.pending
finished =
    acquire_notified push_back 6 signaled_in_time nobody_there [] [] success [] refl refl refl refl
      refl

acquire_accounts_example :
    finished.0.object ≡ left 6 true (joined 6 (push_back 6) signaled_in_time nobody_there).object
acquire_accounts_example =
    acquire_accounts push_back 6 signaled_in_time nobody_there refl finished.1

-- Thread 6 was notified when it was leaving an earlier wait.
abbrev stale : Shared Semaphore
stale = record nobody_there {
  monitors = λ _. record Monitor.init {
    status = record { pending = Status.only_signaled; mask = Status.anything };
  };
}

abbrev alone : During Semaphore
alone = record signaled_in_time { wakeups = λ _. []; others = λ s. s }

permit_from_stale_signal_example :
    (s' : Shared Semaphore) × (acquire push_back 6 alone stale ≡ some (ok tt, s'))
    × (s'.object ≡ left 6 true (joined 6 (push_back 6) alone stale).object)
permit_from_stale_signal_example = permit_from_stale_signal push_back 6 alone stale refl refl refl

-- The count is then -1.
stale_count : (left 6 true (joined 6 (push_back 6) alone stale).object).count ≡ negsuc 0
stale_count = refl

try_acquire_at_once_example : try_acquire 6 0 alone three_waiters ≡ some (ok false, three_waiters)
try_acquire_at_once_example =
    try_acquire_at_once 6 alone three_waiters (refl, (refl, (refl, (refl, tt))))

-- One permit: thread 4 takes it, thread 5 waits, thread 4 releases, thread 5 comes back with it.
abbrev four_has_it : System.System
four_has_it = System.taken (System.start (pos 1) (pos 1) true)

abbrev five_stays : System.System
five_stays = System.entered 5 (5 ∷ []) four_has_it

abbrev five_has_it : System.System
five_has_it = System.after_acquire 5 State.signaled [] (System.raised five_stays)

five_has_it-Reach : System.Reach (System.start (pos 1) (pos 1) true) five_has_it
five_has_it-Reach =
    System.next
      (System.next
        (System.next (System.next System.here (System.takes refl)) (System.enters 5 push_back refl))
        (System.releases refl))
      (System.acquires 5 State.signaled [] [] refl)

permits_accounted_example : plus 2 five_has_it.semaphore.count ≡ plus 1 (pos 1)
unfolding finish_acquire
permits_accounted_example = (permits_accounted (pos 1) (pos 1) true five_has_it-Reach).0

count_within_bound_example : AtMost (pos 1) five_has_it.semaphore.count
count_within_bound_example = count_within_bound (pos 1) (pos 1) (zero, refl) five_has_it-Reach
