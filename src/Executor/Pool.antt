-- ===== src/Executor/Pool.antt =====
-- src/PoolExecutor.cxx: `ExecutorImpl`, which the executor and its workers share. A task is a number.
use zthread.Base.{
  ℕ, zero, suc, ◌-◌, Bool, Option, none, some, List, [], ◌∷◌, ◌++◌, ◌==◌, ltb, if◌then◌else◌,
  length,
}
use zthread.Exceptions.{Exception, Result, ok, throw}
use zthread.Monitor.{Monitor}
use zthread.Monitor
use zthread.Waiters.{Monitors, update}
use zthread.Waiters.Stay.{Shared, During, on_object}
use zthread.Blocking.{Outcome, returns, throws, waits}
use zthread.Queue.Monitored.{MonitoredQueue}
use zthread.Queue.Monitored
use zthread.Executor.Groups.{WaiterQueue, increment, decrement, next_generation}
use zthread.Executor.Groups

-- A GroupedRunnable.
pub record Job : Type 0 where
  pub task : ℕ
  pub group : ℕ
  pub generation : ℕ

pub record Pool : Type 0 where
  pub task_queue : MonitoredQueue Job
  pub waiting_queue : WaiterQueue
  pub threads : List ℕ
  pub size : ℕ

abbrev pub init : Pool
init = record { task_queue = Monitored.init; waiting_queue = Groups.init; threads = []; size = 0 }

abbrev pub on_monitor : ℕ → (Monitor → Monitor) → Shared Pool → Shared Pool
on_monitor t f s = record s { monitors = update s.monitors t (f (s.monitors t)) }

unfoldable pub register_thread : ℕ → Shared Pool → Shared Pool
unfolding Monitor.cancel
register_thread self s =
    let listed = on_object (λ p. record p { threads = p.threads ++ self ∷ [] }) s in
    if ltb listed.object.size (length listed.object.threads)
    then on_monitor self (λ m. (Monitor.cancel m).1) listed
    else listed

abbrev pub drop : ℕ → List ℕ → List ℕ
drop zero xs = xs
drop (suc n) [] = []
drop (suc n) (x ∷ xs) = drop n xs

abbrev pub without : ℕ → List ℕ → List ℕ
without t [] = []
without t (u ∷ us) = if u == t then without t us else u ∷ without t us

-- `std::remove`, which moves the elements that stay to the front and leaves the list as long as it was.
unfoldable pub std_remove : ℕ → List ℕ → List ℕ
std_remove t ts = without t ts ++ drop (length (without t ts)) ts

unfoldable pub unregister_thread : ℕ → Shared Pool → Shared Pool
unfolding std_remove
unregister_thread self s = on_object (λ p. record p { threads = std_remove self p.threads }) s

-- The groups of the pool with the monitors, and back.
abbrev pub groups_of : Shared Pool → Shared WaiterQueue
groups_of s = record { object = s.object.waiting_queue; monitors = s.monitors }

abbrev pub put_groups : Shared WaiterQueue → Shared Pool → Shared Pool
put_groups g s = record {
  object = record (s.object) { waiting_queue = g.object };
  monitors = g.monitors;
}

-- The end of a task that did not get into the queue; the exception is passed on.
abbrev pub taken_back :
    Exception → Shared Pool → Option (Shared WaiterQueue) → Option (Result (Unit {0}) × Shared Pool)
taken_back e s none = none
taken_back e s (some g) = some (throw e, put_groups g s)

abbrev pub after_add :
    List (Shared WaiterQueue → Shared WaiterQueue)
    → ℕ
    → Shared Pool
    → Outcome (MonitoredQueue Job) (Unit {0})
    → Option (Result (Unit {0}) × Shared Pool)
after_add others n s (returns _ q) = some (ok tt, on_object (λ p. record p { task_queue = q }) s)
after_add others stale s (throws e q) = taken_back e s (decrement others stale (groups_of s))
after_add others n s (waits q) = none

-- The list is what other threads do while `decrement` backs off. When the queue throws, the temporary
-- `ExecutorTask(runnable)` has deleted the runnable before the handler reads `runnable->group()`: what
-- is read there is the argument `stale`.
unfoldable pub execute :
    List (Shared WaiterQueue → Shared WaiterQueue)
    → ℕ
    → ℕ
    → Shared Pool
    → Option (Result (Unit {0}) × Shared Pool)
execute others stale task s =
    let ((group, generation), q) = increment s.object.waiting_queue in
    let s' = on_object (λ p. record p { waiting_queue = q }) s in
    after_add others stale s' (
      Monitored.add (record { task = task; group = group; generation = generation })
        s.object.task_queue)

-- The loop over the threads; the first argument is what other threads do to the monitors before each
-- interruption.
abbrev pub interrupt_all : (ℕ → Monitors → Monitors) → ℕ → List ℕ → Monitors → Monitors
interrupt_all others caller [] ms = ms
interrupt_all others caller (t ∷ ts) ms =
    let seen = others t ms in
    interrupt_all others caller ts (update seen t (Monitor.interrupt caller (seen t)).1)

-- `_waitingQueue.generation(true)`
abbrev pub bump : Shared Pool → Shared Pool
bump s = on_object (λ p. record p { waiting_queue = next_generation p.waiting_queue }) s

-- Other threads come between its two critical sections, `between`, and in the second one to the
-- monitors, `others`.
unfoldable pub interrupt :
    (ℕ → Monitors → Monitors) → ℕ → (Shared Pool → Shared Pool) → Shared Pool → Shared Pool
interrupt others caller between s =
    let s' = between (bump s) in
    record s' { monitors = interrupt_all others caller s'.object.threads s'.monitors }

-- The number of threads that are needed.
unfoldable pub workers : ℕ → Pool → ℕ × Pool
workers n p = ((if ltb p.size n then n - p.size else 0), record p { size = n })

-- `PoolExecutor::size`: the number of workers that are started.
unfoldable pub resize : ℕ → Pool → Result ℕ × Pool
unfolding workers
resize n p =
    let (m, p') = workers n p in if ltb n 1 then (throw Exception.invalid_op, p) else (ok m, p')

-- What other threads do between the critical sections of `next`: after the task is drawn, and after
-- its generation is compared.
pub record Between : Type 0 where
  pub after_pop : Shared Pool → Shared Pool
  pub after_compare : Shared Pool → Shared Pool

-- What the thread's monitor is told about a task that it draws.
abbrev pub prepare : ℕ → Job → Between → Shared Pool → Shared Pool
prepare self job between s =
    let compared = between.after_pop s in
    let s' = between.after_compare compared in
    if job.generation == compared.object.waiting_queue.generation
    then on_monitor self (λ m. (Monitor.is_interrupted m).1) s'
    else on_monitor self (λ m. (Monitor.interrupt self m).1) s'

abbrev pub put_queue : MonitoredQueue Job → Shared Pool → Shared Pool
put_queue q s = on_object (λ p. record p { task_queue = q }) s

abbrev pub after_next :
    ℕ → Between → Shared Pool → Outcome (MonitoredQueue Job) Job → Outcome (Shared Pool) Job
after_next self between s (returns job q) = returns job (prepare self job between (put_queue q s))
after_next self between s (throws e q) = throws e s
after_next self between s (waits q) = waits (put_queue q s)

-- One go of the loop of `next`; an interruption of the wait makes the thread go again.
unfoldable pub next : ℕ → Between → Shared Pool → Outcome (Shared Pool) Job
next self between s = after_next self between s (Monitored.next self s.object.task_queue)

unfoldable pub cancel : Pool → Pool
cancel p = record p { task_queue = Monitored.cancel p.task_queue }

abbrev pub is_canceled : Pool → Bool
is_canceled p = Monitored.is_canceled p.task_queue

-- `GroupedRunnable::run` after the task, which may throw what it likes.
abbrev pub finish_job :
    List (Shared WaiterQueue → Shared WaiterQueue) → Job → Shared Pool → Option (Shared Pool)
finish_job others job s = elim (decrement others job.group (groups_of s)) [
  | none ↦ none
  | some g ↦ some (put_groups g s)
]

-- `PoolExecutor::wait` and `PoolExecutor::wait(timeout)`.
abbrev pub waited :
    Shared Pool → Option (Result Bool × Shared WaiterQueue) → Option (Result Bool × Shared Pool)
waited s none = none
waited s (some (r, g)) = some (r, put_groups g s)

unfoldable pub wait : ℕ → During WaiterQueue → Shared Pool → Option (Result Bool × Shared Pool)
wait self d s = waited s (Groups.wait self 0 d (groups_of s))

unfoldable pub wait_within :
    ℕ → ℕ → During WaiterQueue → Shared Pool → Option (Result Bool × Shared Pool)
wait_within self timeout d s =
    waited s (Groups.wait self (if timeout == 0 then 1 else timeout) d (groups_of s))
