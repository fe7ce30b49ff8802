-- ===== src/Queue/Tests.antt =====
-- The queues of include/zthread: tests.
use zthread.Base.{ℕ, ◌≡◌, refl, true, false, List, [], ◌∷◌, ◌++◌}
use zthread.Blocking.{quiet, map_state}
use zthread.Queue.Bounded.{BoundedQueue, add, next, cancel, empty_within}
use zthread.Queue.Bounded
use zthread.Queue.Monitored
use zthread.Queue.Locked
use zthread.Queue.Blocking.{unwatched, monitored_is_blocking}
use zthread.Queue.Blocking
use zthread.Queue.Unbounded.{unbound}
use zthread.Queue.Unwaiting.{unwatch, no_wait, monitored_is_locked}
use zthread.Queue.History.{
  Go, adds, takes, awaits_empty_within, Log, start, step, run, Inv, cancels, run-start-Inv,
}
use zthread.Queue.Cancel.{cancel_closes, cancel_strands}

-- Two producers fill a queue for one item, and a consumer takes it.
abbrev goes : List (Go ℕ)
goes = adds 1 10 ∷ adds 2 20 ∷ takes 3 ∷ adds 2 20 ∷ awaits_empty_within true false 4 ∷ []

goes_taken : (run goes (start 1)).taken ≡ 10 ∷ []
unfolding run step add next empty_within
goes_taken = refl

run-start-Inv_example : Inv 1 (run goes (start 1))
run-start-Inv_example = run-start-Inv 1 goes

-- Producer 2 waits for room.
abbrev full : Log ℕ
full = run (adds 1 10 ∷ adds 2 20 ∷ []) (start 1)

full_waiting : full.queue.not_full.waiting ≡ 2 ∷ []
unfolding run step add
full_waiting = refl

cancel_closes_example :
    (xs : List ℕ) × (full.queue.queue
      ≡ xs ++ (run (adds 3 30 ∷ takes 4 ∷ []) (step cancels full)).queue.queue)
    × ((run (adds 3 30 ∷ takes 4 ∷ []) (step cancels full)).taken ≡ full.taken ++ xs)
cancel_closes_example = (cancel_closes (adds 3 30 ∷ takes 4 ∷ []) full 4).2

cancel_strands_example :
    (run (adds 3 30 ∷ cancels ∷ []) (step cancels full)).queue.not_full ≡ full.queue.not_full
cancel_strands_example = (cancel_strands (adds 3 30 ∷ cancels ∷ []) full (refl, (refl, tt))).1

-- Consumer 5 takes the last item while consumer 6 waits for the queue to be empty.
abbrev watched : BoundedQueue ℕ
watched = record {
  capacity = 2;
  not_full = quiet;
  not_empty = quiet;
  is_empty = record { waiting = 6 ∷ []; woken = [] };
  queue = 10 ∷ [];
  canceled = false;
}

monitored_is_locked_example :
    no_wait (Monitored.next 5 (unbound watched)) ≡ Locked.next (unwatch (unbound watched))
monitored_is_locked_example = (monitored_is_locked 5 20 (unbound watched)).1

-- Consumer 3 waits on an empty queue.
abbrev hungry : Monitored.MonitoredQueue ℕ
hungry = record Monitored.init { not_empty = record { waiting = 3 ∷ []; woken = [] } }

monitored_is_blocking_example :
    (map_state unwatched (Monitored.add 10 hungry) ≡ Blocking.add 10 (unwatched hungry))
    × (map_state unwatched (Monitored.next 4 hungry) ≡ Blocking.next 4 (unwatched hungry))
    × (unwatched (Monitored.cancel hungry) ≡ Blocking.cancel (unwatched hungry))
monitored_is_blocking_example = monitored_is_blocking 4 10 hungry
