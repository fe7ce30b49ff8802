-- ===== src/Thread/Tests.antt =====
-- src/ThreadImpl.cxx: tests.
use zthread.Base.{ℕ, ◌≡◌, refl, true, false, some, [], ◌∷◌}
use zthread.Exceptions.{Exception, ok, throw}
use zthread.Status.{anything}
use zthread.Status
use zthread.State.{Stage, is_joined}
use zthread.Monitor.{notifies}
use zthread.Monitor
use zthread.Monitor.Wait.{ok as success}
use zthread.Waiters.{Monitors}
use zthread.Waiters.Stay.{Shared, During, on_object}
use zthread.Thread.{Thread, user, reference, is_active, start, begin, finish, enter, depart, join}
use zthread.Thread.Start.{life, start_failed}
use zthread.Thread.Exit.{exit_tells, join_notified, join_stale}

abbrev quiet : Monitors
quiet _ = Monitor.init

abbrev nothing : ℕ → Monitors → Monitors
nothing t ms = ms

life_example :
    let started = (start true reference (user false)).1 in
    let running = begin started in
    let done = (finish nothing (record { object = running; monitors = quiet })).object in
    (is_active started ≡ true)
    × (is_active running ≡ true)
    × (is_joined done.stage ≡ true)
    × (start true reference started ≡ (throw Exception.invalid_op, started))
    × (start true reference running ≡ (throw Exception.invalid_op, running))
    × (start true reference done ≡ (throw Exception.invalid_op, done))
life_example = life reference (user false) nothing quiet true refl

start_failed_example :
    let (r, failed) = start false reference (user false) in
    (r ≡ throw Exception.synchronization)
    × (is_active failed ≡ true)
    × (start true reference failed ≡ (throw Exception.invalid_op, failed))
start_failed_example = start_failed reference (user false) true refl

-- Threads 6 and 7 wait for the end of a thread.
abbrev joined_by_two : Shared Thread
joined_by_two = record {
  object = record (user false) { stage = Stage.running; joiners = 6 ∷ 7 ∷ [] };
  monitors = λ _. record Monitor.init { waiting = true };
}

exit_tells_example :
    (is_joined (finish nothing joined_by_two).object.stage ≡ true)
    × ((finish nothing joined_by_two).object.joiners ≡ [])
    × (((finish nothing joined_by_two).monitors 7).status.pending.signaled ≡ true)
exit_tells_example = exit_tells nothing joined_by_two (6 ∷ []) [] 7 (λ _. refl) refl refl

abbrev runs : Shared Thread
runs = record { object = record (user false) { stage = Stage.running }; monitors = quiet }

abbrev told_in_time : During Thread
told_in_time = record {
  clock = record { seconds = 0; milliseconds = 0 };
  wakeups = λ _. record { calls = notifies ∷ []; errno = success } ∷ [];
  others = λ s. s;
}

join_notified_example :
    (s' : Shared Thread) × (join true 5 6 0 told_in_time runs ≡ some (ok true, s'))
    × (s'.object ≡ depart 6 (on_object (enter 6) runs).object)
unfolding Status.pending Monitor.perform_all
join_notified_example =
    join_notified 5 6 0 told_in_time runs [] [] success [] refl refl refl refl refl refl refl

-- Thread 6 was notified when it was leaving an earlier wait, and nobody wakes it now.
abbrev stale : Shared Thread
stale = record runs {
  monitors = λ _. record Monitor.init {
    status = record { pending = Status.only_signaled; mask = anything };
  };
}

abbrev alone : During Thread
alone = record told_in_time { wakeups = λ _. [] }

join_stale_example :
    (s' : Shared Thread) × (join true 5 6 0 alone stale ≡ some (ok true, s'))
    × (s'.object ≡ depart 6 (on_object (enter 6) stale).object)
join_stale_example = join_stale 5 6 0 alone stale refl refl refl refl refl

-- The thread that was joined still runs.
stale_stage : (depart 6 (on_object (enter 6) stale).object).stage ≡ Stage.running
stale_stage = refl
