-- ===== src/Executor/Worker.antt =====
-- `Worker::run` of src/PoolExecutor.cxx: the loop of a pool's thread. The task, and what other threads do
-- between two goes of `next`, are arguments.
pub mod Drains
use zthread.Base.{
  ℕ, suc, ◌≡◌, ◌<◌, refl, sym, ap, ◌∙◌, Bool, true, false, Option, none, some, List, [], ◌∷◌, ◌++◌,
  length, arith, if◌then◌else◌, ◌==◌, inl, inr, Bool-cases,
}
use zthread.Exceptions.{Exception, Result, ok, throw}
use zthread.Status
use zthread.Monitor.{Monitor}
use zthread.Monitor
use zthread.Waiters.{update}
use zthread.Waiters.Stay.{Shared, on_object}
use zthread.Blocking.{Outcome, returns, throws, waits}
use zthread.Queue.Monitored
use zthread.Executor.Pool.{
  Job, Pool, Between, on_monitor, register_thread, unregister_thread, prepare, after_next, next,
}

abbrev pub Others : Type 0
Others = List (Shared Pool → Shared Pool)

-- The loop of `next`: `none` while the thread waits for a task.
unfoldable pub draw : ℕ → Others → Between → Shared Pool → Option (Result Job × Shared Pool)
draw self [] between s = elim (next self between s) [
  | returns job s' ↦ some (ok job, s')
  | throws e s' ↦ some (throw e, s')
  | waits s' ↦ none
]
draw self (others ∷ rest) between s = elim (next self between s) [
  | returns job s' ↦ some (ok job, s')
  | throws e s' ↦ some (throw e, s')
  | waits s' ↦ draw self rest between (others s')
]

-- The jobs that were run, how the loop ended, and the pool.
abbrev pub Ending : Type 0
Ending = List Job × (Result (Unit {0}) × Shared Pool)

abbrev pub with_job : Job → Option Ending → Option Ending
with_job job none = none
with_job job (some (jobs, x)) = some (job ∷ jobs, x)

-- A round, after the test; the last argument goes on with the loop.
abbrev pub after_draw :
    (Job → Shared Pool → Shared Pool)
    → Option (Result Job × Shared Pool)
    → (Shared Pool → Option Ending)
    → Option Ending
after_draw task none go = none
after_draw task (some (throw e, s)) go = some ([], (throw e, s))
after_draw task (some (ok job, s)) go = with_job job (go (task job s))

-- What other threads do in a round: between the test and `next`, while `next` waits, and between its
-- critical sections. What they do while the task runs is part of the task.
pub record Round : Type 0 where
  pub before : Shared Pool → Shared Pool
  pub waiting : Others
  pub between : Between

-- The `while`; the list has an entry for each round, `none` if it goes on after them.
unfoldable pub rounds :
    ℕ → (Job → Shared Pool → Shared Pool) → List Round → Shared Pool → Option Ending
rounds self task [] s = none
rounds self task (round ∷ rest) s =
    let (canceled, m) = Monitor.is_canceled self (s.monitors self) in
    let tested = on_monitor self (λ _. m) s in
    if canceled
    then some ([], (ok tt, unregister_thread self tested))
    else after_draw task (draw self round.waiting round.between (round.before tested))
        (rounds self task rest)

unfoldable pub run_worker :
    ℕ → (Job → Shared Pool → Shared Pool) → List Round → Shared Pool → Option Ending
run_worker self task all s = rounds self task all (register_thread self s)
