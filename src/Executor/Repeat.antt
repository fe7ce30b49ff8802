-- ===== src/Executor/Repeat.antt =====
-- `WaiterQueue` of src/PoolExecutor.cxx and src/ThreadedExecutor.cxx: two groups with one identity.
use zthread.Base.{ℕ, ◌≡◌, refl, true, none, some, [], ◌∷◌}
use zthread.Monitor
use zthread.Waiters.{attempt}
use zthread.Waiters.Passes.{wake_all}
use zthread.Waiters.Stay.{Shared, on_object}
use zthread.Executor.Groups.{
  WaiterQueue, init, increment, decrement, join, total, sweep, sweep_pass, sweep_loop,
}

abbrev begin : Shared WaiterQueue → Shared WaiterQueue
begin s = on_object (λ q. (increment q).1) s

abbrev end : ℕ → Shared WaiterQueue → Shared WaiterQueue
end n s = elim (decrement [] n s) [ none ↦ s | some s' ↦ s' ]

-- A task begins, thread 8 waits for it, and it ends; the group that `decrement` then makes has the identity that the next one
-- made by `increment` will have.
abbrev idle : Shared WaiterQueue
idle = end 0 (
    on_object (join 8)
      (begin (record { object = init; monitors = λ _. record Monitor.init { waiting = true } })))

-- A task begins, thread 9 waits for it, and two tasks begin.
abbrev busy : Shared WaiterQueue
busy = begin (begin (on_object (join 9) (begin idle)))

busy_ids :
    busy.object.groups
    ≡ record { id = 2; count = 2; waiters = 9 ∷ [] }
      ∷ record { id = 2; count = 1; waiters = [] }
      ∷ []
unfolding increment decrement sweep sweep_pass sweep_loop wake_all attempt Monitor.try_acquire
    Monitor.notify
busy_ids = refl

-- The two later tasks end, and thread 9 is signaled while the task that it waits for executes.
early : ((end 2 (end 2 busy)).monitors 9).status.pending.signaled ≡ true
unfolding increment decrement sweep sweep_pass sweep_loop wake_all attempt Monitor.try_acquire
    Monitor.notify Monitor.release
early = refl

still_executing : total (end 2 (end 2 busy)).object.groups ≡ 1
unfolding increment decrement sweep sweep_pass sweep_loop wake_all attempt Monitor.try_acquire
    Monitor.notify Monitor.release
still_executing = refl
