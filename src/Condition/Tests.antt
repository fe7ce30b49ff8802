-- ===== src/Condition/Tests.antt =====
-- src/ConditionImpl.h: tests.
use zthread.Base.{ℕ, zero, suc, ◌≡◌, refl, inr, Bool, true, false, some, List, [], ◌∷◌, ◌++◌}
use zthread.Exceptions.{ok}
use zthread.Status.{State, anything, only_signaled}
use zthread.Status
use zthread.Monitor.{notifies, perform_all}
use zthread.Monitor
use zthread.Monitor.Wait.{ok as success}
use zthread.Waiters.{Monitors, update}
use zthread.Waiters.Stay.{Shared, During}
use zthread.Waiters.Laws.{busy_of, notified}
use zthread.Condition.{Condition, Lockable, set_waiters, signal, broadcast, wait}
use zthread.Condition.Signals.{signal_wakes, broadcast_tells}
use zthread.Condition.Abstract.{Op, signals, broadcasts, sleeps, run_ops, Shows, condition_refines}
use zthread.Blocking
use zthread.Condition.Relock.{wait_relocks, condition_notified}

abbrev push_back : ℕ → List ℕ → List ℕ
push_back t ts = ts ++ t ∷ []

-- The predicate lock is the flag whether it is held.
abbrev flag : Lockable Bool
flag = record {
  release = λ self s. (ok tt, record s { object = false });
  acquire = λ self s. some (ok tt, record s { object = record (s.object) { predicate = true } });
}

-- All wait; thread 2 has been interrupted.
abbrev monitors : Monitors
monitors (suc (suc zero)) = record Monitor.init {
  status = record { pending = Status.only_interrupted; mask = anything };
  waiting = true;
}
monitors _ = record Monitor.init { waiting = true }

abbrev three_waiters : Shared (Condition Bool)
three_waiters = record {
  object = record { waiters = 2 ∷ 3 ∷ 4 ∷ []; predicate = true };
  monitors = monitors;
}

signal_wakes_example :
    signal [] three_waiters
    ≡ some (set_waiters (4 ∷ []) (update monitors 3 (notified (monitors 3))) three_waiters)
unfolding busy_of
signal_wakes_example =
    signal_wakes [] three_waiters (2 ∷ []) (4 ∷ []) 3 refl (inr (refl, refl), tt) (refl, refl)

abbrev all_wait : Shared (Condition Bool)
all_wait = record three_waiters { monitors = λ _. record Monitor.init { waiting = true } }

broadcast_tells_example :
    (s' : Shared (Condition Bool)) × (broadcast [] all_wait ≡ some s')
    × (s'.object.waiters ≡ [])
    × ((s'.monitors 4).status.pending.signaled ≡ true)
broadcast_tells_example = broadcast_tells [] all_wait (2 ∷ 3 ∷ []) [] 4 (λ _. refl) refl refl

abbrev idle : Shared (Condition Bool)
idle = record { object = record { waiters = []; predicate = true }; monitors = λ _. Monitor.init }

abbrev signaled_in_time : During (Condition Bool)
signaled_in_time = record {
  clock = record { seconds = 0; milliseconds = 0 };
  wakeups = λ _. record { calls = notifies ∷ []; errno = success } ∷ [];
  others = λ s. s;
}

abbrev unheld : Shared Bool
unheld = record { object = false; monitors = λ _. Monitor.init }

condition_notified_example :
    (s' : Shared (Condition Bool)) × (wait push_back flag 6 signaled_in_time idle
      ≡ some (ok tt, s'))
unfolding perform_all Status.pending
condition_notified_example =
    condition_notified push_back flag 6 signaled_in_time idle unheld [] [] success [] refl refl refl
      refl refl (λ s. (_, refl))

-- What thread 6 comes back to.
finished :
    (s' : Shared (Condition Bool)) × (wait push_back flag 6 signaled_in_time idle
      ≡ some (ok tt, s'))
unfolding perform_all Status.pending
finished =
    condition_notified push_back flag 6 signaled_in_time idle unheld [] [] success [] refl refl refl
      refl refl (λ s. (_, refl))

wait_relocks_example : (finished.0.monitors 6).status.mask ≡ anything
wait_relocks_example =
    (wait_relocks push_back flag 6 signaled_in_time idle unheld refl finished.1).9

-- Threads 7 and 8 come to wait, one is woken, thread 9 comes, and all are woken.
abbrev traffic : List Op
traffic = sleeps 7 ∷ sleeps 8 ∷ signals ∷ sleeps 9 ∷ broadcasts ∷ []

condition_refines_example :
    (s' : Shared (Condition Bool)) × (run_ops traffic idle ≡ some s')
    × Shows s' (record { waiting = []; woken = 7 ∷ 8 ∷ 9 ∷ [] })
condition_refines_example =
    condition_refines traffic idle Blocking.quiet
      (record { listed = refl; told = tt; free = λ _. refl; hear = λ _. refl })
