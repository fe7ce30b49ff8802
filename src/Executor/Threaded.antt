-- ===== src/Executor/Threaded.antt =====
-- src/ThreadedExecutor.cxx: `ExecutorImpl`, and the worker that each task has for itself.
use zthread.Base.{
  ℕ, Bool, true, false, Option, none, some, List, [], ◌∷◌, ◌++◌, ◌==◌, if◌then◌else◌,
}
use zthread.Exceptions.{Result}
use zthread.Monitor.{Monitor}
use zthread.Monitor
use zthread.Waiters.{Monitors, update}
use zthread.Waiters.Stay.{Shared, During, on_object}
use zthread.Executor.Groups.{WaiterQueue, increment, decrement, next_generation}
use zthread.Executor.Groups
use zthread.Executor.Pool.{interrupt_all, std_remove}

pub record Executor : Type 0 where
  pub canceled : Bool
  pub threads : List ℕ
  pub queue : WaiterQueue

-- A Worker: the task's group and generation, from the moment that `execute` makes it.
pub record Worker : Type 0 where
  pub task : ℕ
  pub group : ℕ
  pub generation : ℕ

abbrev pub init : Executor
init = record { canceled = false; threads = []; queue = Groups.init }

-- `execute`: the worker of the thread that it starts. `_canceled` is not read.
unfoldable pub execute : ℕ → Executor → Worker × Executor
execute task x =
    let ((group, generation), q) = increment x.queue in
    (record { task = task; group = group; generation = generation }, record x { queue = q })

-- The third argument is what other threads do after the comparison of the generations.
unfoldable pub register_thread :
    ℕ → ℕ → (Shared Executor → Shared Executor) → Shared Executor → Shared Executor
register_thread generation self between s =
    let s' = between s in
    if s.object.queue.generation == generation
    then on_object (λ x. record x { threads = x.threads ++ self ∷ [] }) s'
    else record s' {
      monitors = update s'.monitors self (Monitor.interrupt self (s'.monitors self)).1;
    }

unfoldable pub unregister_thread : ℕ → Shared Executor → Shared Executor
unregister_thread self s = on_object (λ x. record x { threads = std_remove self x.threads }) s

unfoldable pub cancel : Executor → Executor
cancel x = record x { canceled = true }

abbrev pub is_canceled : Executor → Bool
is_canceled x = x.canceled

-- Other threads come to the monitors before each interruption, `others`, and between the loop and the
-- new generation, `between`.
unfoldable pub interrupt :
    (ℕ → Monitors → Monitors)
    → ℕ
    → (Shared Executor → Shared Executor)
    → Shared Executor
    → Shared Executor
interrupt others caller between s =
    let s' =
      between (record s { monitors = interrupt_all others caller s.object.threads s.monitors }) in
    on_object (λ x. record x { queue = next_generation x.queue }) s'

abbrev pub queue_of : Shared Executor → Shared WaiterQueue
queue_of s = record { object = s.object.queue; monitors = s.monitors }

abbrev pub put_queue : Shared WaiterQueue → Shared Executor → Shared Executor
put_queue g s = record { object = record (s.object) { queue = g.object }; monitors = g.monitors }

abbrev pub unregistered :
    ℕ → Shared Executor → Option (Shared WaiterQueue) → Option (Shared Executor)
unregistered self s none = none
unregistered self s (some g) = some (unregister_thread self (put_queue g s))

-- `Worker::run`: up to the task, and after it, whatever it throws.
abbrev pub begin_run :
    ℕ → Worker → (Shared Executor → Shared Executor) → Shared Executor → Shared Executor
begin_run self w between s = register_thread w.generation self between s

unfoldable pub end_run :
    List (Shared WaiterQueue → Shared WaiterQueue)
    → ℕ
    → Worker
    → Shared Executor
    → Option (Shared Executor)
unfolding unregister_thread
end_run others self w s = unregistered self s (decrement others w.group (queue_of s))

abbrev pub waited :
    Shared Executor
    → Option (Result Bool × Shared WaiterQueue)
    → Option (Result Bool × Shared Executor)
waited s none = none
waited s (some (r, g)) = some (r, put_queue g s)

unfoldable pub wait :
    ℕ → During WaiterQueue → Shared Executor → Option (Result Bool × Shared Executor)
wait self d s = waited s (Groups.wait self 0 d (queue_of s))

unfoldable pub wait_within :
    ℕ → ℕ → During WaiterQueue → Shared Executor → Option (Result Bool × Shared Executor)
wait_within self timeout d s =
    waited s (Groups.wait self (if timeout == 0 then 1 else timeout) d (queue_of s))
