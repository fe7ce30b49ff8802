-- ===== src/Executor/Tests.antt =====
-- The executors: tests.
use zthread.Base.{Bool, length, suc, ◌≡◌, refl, true, false, some, [], ◌∷◌, arith}
use zthread.Monitor
use zthread.Monitor.{Monitor}
use zthread.Waiters.Stay.{Shared}
use zthread.Executor.Groups.{WaiterQueue, increment, decrement, total}
use zthread.Exceptions.{Exception, ok, throw}
use zthread.Status
use zthread.Blocking.{returns}
use zthread.Queue.Monitored
use zthread.Executor.Pool.{
  std_remove, Pool, Job, Between, execute, register_thread, bump, interrupt, next,
}
use zthread.Executor.Pool
use zthread.Executor.Threaded
use zthread.Executor.Generations.{pool_interrupt, threaded_interrupt}
use zthread.Executor.Refused.{unregistered-length}
use zthread.Executor.Worker.{Round, rounds}
use zthread.Executor.Worker.Drains.{Quiet, canceled_worker_drains}
use zthread.Executor.Synchronous.{
  SynchronousExecutor, cancel as cancel_synchronous, execute as execute_synchronous,
  canceled_runs_nothing,
}
use zthread.Guard.{Lock}
use zthread.Executor.Counts.{increment_counts, decrement_counts, decrement_wakes}

-- Thread 9 waits for the two tasks of group 3.
abbrev two_tasks : Shared WaiterQueue
two_tasks = record {
  object = record {
    groups =
        record { id = 3; count = 1; waiters = 9 ∷ [] }
        ∷ record { id = 4; count = 1; waiters = [] }
        ∷ [];
    next_id = 5;
    generation = 0;
  };
  monitors = λ _. record Monitor.init { waiting = true };
}

increment_counts_example : total (increment two_tasks.object).1.groups ≡ 3
increment_counts_example = increment_counts two_tasks.object refl (omega arith)

decrement_counts_example :
    (s' : Shared WaiterQueue) × (decrement [] 4 two_tasks ≡ some s')
    × (suc (total s'.object.groups) ≡ 2)
decrement_counts_example = decrement_counts 4 two_tasks (λ _. refl) (omega arith, omega arith)

decrement_wakes_example :
    (s' : Shared WaiterQueue) × (decrement [] 3 two_tasks ≡ some s')
    × ((s'.monitors 9).status.pending.signaled ≡ true)
decrement_wakes_example =
    decrement_wakes two_tasks (record { id = 3; count = 1; waiters = 9 ∷ [] })
      (record { id = 4; count = 1; waiters = [] } ∷ []) [] [] 9 (λ _. refl) refl refl refl refl

-- A pool of two threads with a task to draw.
abbrev one_job : Shared Pool
one_job = record {
  object = record Pool.init {
    task_queue = record Monitored.init {
      queue = record { task = 40; group = 0; generation = 0 } ∷ [];
    };
    threads = 6 ∷ 7 ∷ [];
    size = 2;
  };
  monitors = λ _. record Monitor.init { waiting = true };
}

abbrev job_40 : Job
job_40 = record { task = 40; group = 0; generation = 0 }

-- While thread 6 is between its critical sections, thread 1 interrupts the pool after the task is drawn,
-- and thread 8 registers between the two of `interrupt`.
abbrev interrupted_between : Between
interrupted_between = record {
  after_pop = interrupt (λ _ ms. ms) 1 (λ s. s);
  after_compare = λ s. s;
}

pool_interrupt_example :
    ((s' : Shared Pool) × (next 6 interrupted_between one_job ≡ returns job_40 s')
      × ((s'.monitors 6).status.pending.interrupted ≡ true))
    × ((bump one_job).object.waiting_queue.generation ≡ 1)
    × (((interrupt (λ _ ms. ms) 1 (register_thread 8) one_job).monitors
          8).status.pending.interrupted
        ≡ true)
unfolding Monitored.next register_thread interrupt
pool_interrupt_example =
    pool_interrupt 6 1 1 interrupted_between one_job job_40
      (Monitored.wake_empty (record (one_job.object.task_queue) { queue = [] })) (register_thread 8)
      (λ _ ms. ms) one_job (6 ∷ 7 ∷ []) [] 8 refl refl (omega arith) (omega arith) refl (λ _ _ h. h)

abbrev threaded : Shared Threaded.Executor
threaded = record { object = Threaded.init; monitors = λ _. Monitor.init }

abbrev submitted : Shared Threaded.Executor
submitted = record threaded { object = (Threaded.execute 40 Threaded.init).1 }

abbrev worker : Threaded.Worker
worker = (Threaded.execute 40 Threaded.init).0

abbrev interrupt_threaded : Shared Threaded.Executor → Shared Threaded.Executor
interrupt_threaded s = Threaded.interrupt (λ _ ms. ms) 1 (λ x. x) s

threaded_interrupt_example :
    (((Threaded.begin_run 6 worker (λ x. x) (interrupt_threaded submitted)).monitors
        6).status.pending.interrupted
      ≡ true)
    × (((interrupt_threaded (Threaded.begin_run 6 worker (λ x. x) submitted)).monitors
          6).status.pending.interrupted
        ≡ true)
threaded_interrupt_example =
    threaded_interrupt 6 1 40 (λ _ ms. ms) threaded (omega arith) (λ _ _ h. h)

-- The interruption comes while thread 6 is in `registerThread`, after its comparison.
missed :
    ((Threaded.begin_run 6 worker interrupt_threaded submitted).monitors
      6).status.pending.interrupted
    ≡ false
unfolding Threaded.execute Threaded.register_thread Threaded.interrupt increment
missed = refl

abbrev canceled : Shared Pool
canceled = record one_job {
  object = record (one_job.object) { task_queue = record Monitored.init { canceled = true } };
}

unregistered-length_example : length (std_remove 6 (6 ∷ 7 ∷ [])) ≡ 2
unregistered-length_example = unregistered-length 6 (6 ∷ 7 ∷ [])

-- Two jobs are left in a canceled pool, of which thread 6 is a worker.
abbrev first_job : Job
first_job = record { task = 40; group = 0; generation = 0 }

abbrev second_job : Job
second_job = record { task = 41; group = 0; generation = 3 }

abbrev closing : Shared Pool
closing = record one_job {
  object = record (one_job.object) {
    task_queue = record Monitored.init { queue = first_job ∷ second_job ∷ []; canceled = true };
  };
}

-- A round in which other threads do nothing.
abbrev still : Round
still = record {
  before = λ s. s;
  waiting = [];
  between = record { after_pop = λ s. s; after_compare = λ s. s };
}

still-Quiet : Quiet 6 (6 ∷ 7 ∷ []) still
still-Quiet = record { before = λ _ _ c. c; after_pop = λ _ _ c. c; after_compare = λ _ _ c. c }

canceled_worker_drains_example :
    (s' : Shared Pool) × (rounds 6 (λ _ s. s) (still ∷ still ∷ still ∷ []) closing
      ≡ some (first_job ∷ second_job ∷ [], (throw Exception.cancellation, s')))
    × (s'.object.threads ≡ 6 ∷ 7 ∷ [])
unfolding Status.examine
canceled_worker_drains_example =
    canceled_worker_drains 6 (6 ∷ 7 ∷ []) (λ _ s. s) (first_job ∷ second_job ∷ []) still
      (still ∷ still ∷ []) closing
      (record { queued = refl; closed = refl; listed = refl; goes_on = refl }) (λ _ _ _ c. c)
      (still-Quiet, (still-Quiet, (still-Quiet, tt))) refl

-- The lock is the flag whether it is held; another thread cancels while it is asked for.
abbrev busy_lock : Lock (SynchronousExecutor Bool)
busy_lock = record {
  acquire = λ e. (ok tt, record { canceled = true; rest = true });
  try_acquire = λ _ e. (ok false, e);
  release = λ e. (ok tt, record e { rest = false });
}

abbrev idle : SynchronousExecutor Bool
idle = record { canceled = false; rest = false }

canceled_runs_nothing_example :
    (execute_synchronous busy_lock (λ e. (ok tt, e)) (cancel_synchronous busy_lock idle).1
      ≡ (throw Exception.cancellation, (cancel_synchronous busy_lock idle).1))
    × (execute_synchronous busy_lock (λ e. (ok tt, e)) idle
        ≡ (throw Exception.cancellation, record { canceled = true; rest = false }))
unfolding cancel_synchronous
canceled_runs_nothing_example =
    canceled_runs_nothing busy_lock (λ e. (ok tt, e)) idle idle
      (record { canceled = true; rest = true }) (λ e h. h) refl refl refl refl
