-- ===== src/ThreadQueue/Tests.antt =====
-- src/ThreadQueue.cxx: tests.
use zthread.Base.{ℕ, ◌+◌, ◌≡◌, refl, Bool, true, false, [], ◌∷◌, ◌++◌}
use zthread.Status
use zthread.Monitor
use zthread.Waiters.{Monitors}
use zthread.Waiters.Stay.{Shared}
use zthread.ThreadQueue.{
  Waiter, ThreadQueue, Shutdown, init, insert_user_thread, insert_pending_thread, begin_shutdown,
  waits, remove_shutdown_task, poll_pending_threads, listed,
}
use zthread.ThreadQueue.Accounts.{Reach, here, starts, ends, count, Reach-accounts}
use zthread.ThreadQueue.Ending.{
  shutdown_cancels, last_thread_ends_wait, marked_forgets, removed_too_late,
}

abbrev all : ℕ → Bool
all t = true

abbrev quiet : Monitors
quiet _ = Monitor.init

abbrev empty : Shared ThreadQueue
empty = record { object = init; monitors = quiet }

-- Thread 1 starts and ends, and thread 2 starts.
abbrev one : Shared ThreadQueue
one = (insert_user_thread all 1 empty).1

abbrev ended : Shared ThreadQueue
ended = insert_pending_thread 1 one

abbrev two : Shared ThreadQueue
two = (insert_user_thread all 2 ended).1

users_one : listed 1 one.object.users ≡ true
unfolding insert_user_thread poll_pending_threads
users_one = refl

reach_two :
    Reach all quiet
      (2 ∷ 1 ∷ [])
      two
      ((insert_user_thread all 1 empty).0 ++ (insert_user_thread all 2 ended).0)
reach_two = starts 2 (ends 1 users_one (starts 1 here))

Reach-accounts_example :
    count 1 (2 ∷ 1 ∷ [])
    ≡ count 1 two.object.users
      + count 1 two.object.pending
      + count 1 ((insert_user_thread all 1 empty).0 ++ (insert_user_thread all 2 ended).0)
Reach-accounts_example = Reach-accounts 1 reach_two

abbrev with_users : Shared ThreadQueue
with_users = record empty { object = record init { users = 1 ∷ 2 ∷ []; shutdown_tasks = 30 ∷ [] } }

shutdown_cancels_example :
    let s' = (begin_shutdown all 0 with_users).1 in
    ((s'.monitors 2).status.pending.canceled ≡ true)
    × (((insert_user_thread all 3 s').1.monitors 3).status.pending.canceled ≡ true)
shutdown_cancels_example = shutdown_cancels all 0 with_users (1 ∷ []) [] 2 3 refl refl refl

abbrev destroying : Shared ThreadQueue
destroying = record empty { object = record init { users = 1 ∷ []; waiter = Waiter.thread 0 } }

abbrev shutdown : Shutdown
shutdown = record { wait_required = true; threads_waiting = true; tasks = [] }

last_thread_ends_wait_example :
    (waits shutdown destroying.object ≡ true)
    × (((insert_pending_thread 1 destroying).monitors 0).status.pending.signaled ≡ true)
    × (waits shutdown (insert_pending_thread 1 destroying).object ≡ false)
unfolding Status.pending
last_thread_ends_wait_example =
    last_thread_ends_wait shutdown 0 1 destroying refl refl refl refl refl

abbrev running : Shared ThreadQueue
running = record empty { object = record init { users = 1 ∷ [] } }

marked_forgets_example :
    let s1 = (insert_user_thread all 2 (insert_pending_thread 1 running)).1 in
    let (d, s2) = begin_shutdown all 0 s1 in
    (s1.object.users ≡ 2 ∷ [])
    × ((s1.monitors 2).status.pending.canceled ≡ true)
    × (waits d s2.object ≡ false)
marked_forgets_example = marked_forgets all 0 1 2 running refl refl refl

removed_too_late_example :
    let (d, s') = begin_shutdown all 0 with_users in
    (listed 30 d.tasks ≡ true) × ((remove_shutdown_task 30 s'.object).0 ≡ true)
removed_too_late_example = removed_too_late all 0 30 with_users refl refl
