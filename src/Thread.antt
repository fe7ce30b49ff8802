-- ===== src/Thread.antt =====
-- src/ThreadImpl.h and src/ThreadImpl.cxx: a thread. It is the object of a `Shared`, its own monitor that
-- of its number, `this`; whoever calls has its number, `self`. Each function runs
-- under its monitor's lock, which is the object's lock here. The thread-local values are in
-- ThreadLocal, reference counts are left out; what `ThreadOps::spawn` answers is an argument.
pub mod Start
pub mod Exit
pub mod Tests
use zthread.Base.{
  ℕ, Bool, true, false, not, ◌&&◌, ◌||◌, Option, none, some, List, [], ◌∷◌, ◌++◌, ◌==◌,
  if◌then◌else◌,
}
use zthread.Exceptions.{Exception, Result, ok, throw}
use zthread.Status.{State}
use zthread.State.{
  Stage, is_idle, is_joined, is_reference, is_running, is_starting, set_idle, set_joined,
  set_running, set_starting,
}
use zthread.Monitor
use zthread.Monitor.{Monitor}
use zthread.Monitor.Wait.{Clock, Timespec, Wakeup}
use zthread.Monitor.Wait
use zthread.Waiters.{Monitors, update, remove}
use zthread.Waiters.Passes.{wake_all}
use zthread.Waiters.Stay.{Shared, During, on_object, stay}

pub data Priority : Type 0 where
  low medium high : Priority

pub record Thread : Type 0 where
  pub stage : Stage
  pub joiners : List ℕ
  pub priority : Priority
  pub auto_cancel : Bool

abbrev pub reference : Thread
reference = record {
  stage = Stage.reference;
  joiners = [];
  priority = Priority.medium;
  auto_cancel = false;
}

abbrev pub user : Bool → Thread
user auto_cancel = record {
  stage = Stage.idle;
  joiners = [];
  priority = Priority.medium;
  auto_cancel = auto_cancel;
}

abbrev pub on_monitor : ℕ → (Monitor → Monitor) → Shared Thread → Shared Thread
on_monitor t f s = record s { monitors = update s.monitors t (f (s.monitors t)) }

unfoldable pub cancel : Bool → ℕ → Shared Thread → Shared Thread
cancel auto this s =
    if not auto || s.object.auto_cancel then on_monitor this (λ m. (Monitor.cancel m).1) s else s

abbrev pub is_active : Thread → Bool
is_active t = is_starting t.stage || is_running t.stage

-- The native priority that is set, if one is.
unfoldable pub set_priority : Priority → Thread → Option Priority × Thread
set_priority p t = ((if is_active t then some p else none), record t { priority = p })

-- The native priority of the new thread; the first argument is whether it could be spawned.
unfoldable pub start : Bool → Thread → Thread → Result Priority × Thread
unfolding set_starting set_idle
start spawned parent t =
    let starting = record t { stage = (set_starting t.stage).1 } in
    if not (is_idle t.stage)
    then (throw Exception.invalid_op, t)
    else if not spawned
    then (throw Exception.synchronization, record starting { stage = (set_idle starting.stage).1 })
    else (ok (if is_reference parent.stage then t.priority else parent.priority), starting)

-- `dispatch` up to the task.
unfoldable pub begin : Thread → Thread
unfolding set_running
begin t = record t { stage = (set_running t.stage).1 }

-- The second pass over the joiners: `acquire` waits until the lock is free, and the first argument is
-- what other threads do meanwhile.
unfoldable pub tell_rest : (ℕ → Monitors → Monitors) → List ℕ → Monitors → Monitors
tell_rest others [] ms = ms
tell_rest others (t ∷ ts) ms =
    let free = others t ms in
    let m = Monitor.release (Monitor.notify (Monitor.acquire (free t))).1 in
    tell_rest others ts (update free t m)

-- `dispatch` after the task, whatever that threw: the thread's state, and its joiners.
unfoldable pub finish : (ℕ → Monitors → Monitors) → Shared Thread → Shared Thread
unfolding set_joined
finish others s =
    let p = wake_all s.object.joiners s.monitors in
    record {
      object = record (s.object) { stage = (set_joined s.object.stage).1; joiners = p.waiters };
      monitors = tell_rest others p.waiters p.monitors;
    }

abbrev pub enter : ℕ → Thread → Thread
enter self t = record t { joiners = t.joiners ++ self ∷ [] }

abbrev pub depart : ℕ → Thread → Thread
depart self t = record t { joiners = remove self t.joiners }

-- The `switch` of `join`.
abbrev pub finish_join : State → Result Bool
finish_join State.timedout = ok false
finish_join State.interrupted = throw Exception.interrupted
finish_join _ = ok true

-- The first argument is whether `_monitor.acquire()`, called with the lock of the joining thread's
-- monitor, ever returns: the thread that is joined waits for that lock in `dispatch`, with the lock of
-- its own.
abbrev pub resume : Bool → ℕ → Option (State × Shared Thread) → Option (Result Bool × Shared Thread)
resume locks self none = none
resume false self (some _) = none
resume true self (some (state, s)) = some (finish_join state, on_object (depart self) s)

unfoldable pub join :
    Bool → ℕ → ℕ → ℕ → During Thread → Shared Thread → Option (Result Bool × Shared Thread)
join locks this self timeout d s =
    if this == self
    then some (throw Exception.deadlock, s)
    else if is_reference s.object.stage
    then some (throw Exception.invalid_op, s)
    else if is_joined s.object.stage
    then some (ok true, s)
    else resume locks self (stay self timeout d (on_object (enter self) s))

abbrev pub finish_sleep : State → Result (Unit {0})
finish_sleep State.interrupted = throw Exception.interrupted
finish_sleep _ = ok tt

abbrev pub slept : Option (State × Monitor) → Option (Result (Unit {0}) × Monitor)
slept none = none
slept (some (state, m)) = some (finish_sleep state, Monitor.release m)

-- `sleep`, for more than 0 milliseconds; for 0 it yields.
unfoldable pub sleep :
    ℕ → Clock → ℕ → (Option Timespec → List Wakeup) → Monitor → Option (Result (Unit {0}) × Monitor)
sleep self clock ms wakeups m = slept (Wait.wait self clock ms wakeups (Monitor.acquire m))
