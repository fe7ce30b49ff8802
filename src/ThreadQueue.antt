-- ===== src/ThreadQueue.antt =====
-- src/ThreadQueue.h and src/ThreadQueue.cxx: the threads of the process, and what is to be done when
-- `main` ends. The queue is the object of a `Shared`; whether a thread is to be canceled at that time,
-- `_autoCancel` of its ThreadImpl, is an argument. A task is a number, 0 is the null task. Each
-- function is one stay in `_lock`, but for the two halves of the destructor.
pub mod Accounts
pub mod Ending
pub mod Tests
use zthread.Base.{
  ℕ, Bool, true, false, not, ◌&&◌, ◌||◌, List, [], ◌∷◌, ◌++◌, ◌==◌, if◌then◌else◌, is_empty,
}
use zthread.Monitor.{Monitor}
use zthread.Monitor
use zthread.Waiters.{Monitors, update, remove}
use zthread.Waiters.Stay.{Shared, on_object}

-- `_waiter`: 0, the mark `(ThreadImpl*)1`, or the thread that runs the destructor.
pub data Waiter : Type 0 where
  nobody marked : Waiter
  thread : ℕ → Waiter

pub record ThreadQueue : Type 0 where
  pub pending : List ℕ
  pub references : List ℕ
  pub users : List ℕ
  pub shutdown_tasks : List ℕ
  pub waiter : Waiter

abbrev pub init : ThreadQueue
init = record {
  pending = [];
  references = [];
  users = [];
  shutdown_tasks = [];
  waiter = Waiter.nobody;
}

abbrev pub is_nobody : Waiter → Bool
is_nobody Waiter.nobody = true
is_nobody Waiter.marked = false
is_nobody (Waiter.thread t) = false

abbrev pub is_marked : Waiter → Bool
is_marked Waiter.nobody = false
is_marked Waiter.marked = true
is_marked (Waiter.thread t) = false

-- `ThreadImpl::cancel(true)`
abbrev pub auto_cancel : (ℕ → Bool) → ℕ → Monitors → Monitors
auto_cancel auto t ms = if auto t then update ms t (Monitor.cancel (ms t)).1 else ms

-- When the last user thread has ended: `if(_waiter && _waiter != 1) … else _waiter = !_waiter`
abbrev pub tell_waiter : Waiter → Shared ThreadQueue → Shared ThreadQueue
tell_waiter Waiter.nobody s = on_object (λ q. record q { waiter = Waiter.marked }) s
tell_waiter Waiter.marked s = on_object (λ q. record q { waiter = Waiter.nobody }) s
tell_waiter (Waiter.thread w) s = record s {
  monitors = update s.monitors w (Monitor.notify (s.monitors w)).1;
}

abbrev pub end_user : ℕ → ThreadQueue → ThreadQueue
end_user t q = record q { users = remove t q.users; pending = q.pending ++ t ∷ [] }

unfoldable pub insert_pending_thread : ℕ → Shared ThreadQueue → Shared ThreadQueue
insert_pending_thread t s =
    let s' = on_object (end_user t) s in
    if is_empty s'.object.users then tell_waiter s'.object.waiter s' else s'

unfoldable pub insert_reference_thread : ℕ → ThreadQueue → ThreadQueue
insert_reference_thread t q = record q { references = q.references ++ t ∷ [] }

-- The threads that are joined and let go of.
unfoldable pub poll_pending_threads : ThreadQueue → List ℕ × ThreadQueue
poll_pending_threads q = (q.pending, record q { pending = [] })

-- The threads that are let go of.
abbrev pub poll_reference_threads : ThreadQueue → List ℕ
poll_reference_threads q = q.references

unfoldable pub poll_user_threads : (ℕ → Bool) → List ℕ → Monitors → Monitors
poll_user_threads auto [] ms = ms
poll_user_threads auto (t ∷ ts) ms = poll_user_threads auto ts (auto_cancel auto t ms)

-- With the threads that `pollPendingThreads` reclaims.
unfoldable pub insert_user_thread :
    (ℕ → Bool) → ℕ → Shared ThreadQueue → List ℕ × Shared ThreadQueue
unfolding poll_pending_threads
insert_user_thread auto t s =
    let (reclaimed, q) =
      poll_pending_threads (record (s.object) { users = s.object.users ++ t ∷ [] }) in
    (
      reclaimed,
      record {
        object = q;
        monitors = if is_nobody q.waiter then s.monitors else auto_cancel auto t s.monitors;
      },
    )

-- Whether the caller has to run the task at once.
unfoldable pub insert_shutdown_task : ℕ → ThreadQueue → Bool × ThreadQueue
insert_shutdown_task task q =
    if is_nobody q.waiter
    then (false, record q { shutdown_tasks = q.shutdown_tasks ++ task ∷ [] })
    else (true, q)

abbrev pub listed : ℕ → List ℕ → Bool
listed t [] = false
listed t (u ∷ us) = (u == t) || listed t us

unfoldable pub remove_shutdown_task : ℕ → ThreadQueue → Bool × ThreadQueue
remove_shutdown_task task q =
    (listed task q.shutdown_tasks, record q { shutdown_tasks = remove task q.shutdown_tasks })

-- `std::remove_copy(…, Task((Runnable*)0))`
abbrev pub not_null : List ℕ → List ℕ
not_null [] = []
not_null (t ∷ ts) = if t == 0 then not_null ts else t ∷ not_null ts

-- The first half of the destructor, run by the thread `self`, with `waitRequired`, `threadsWaiting`, and
-- the tasks that it runs next.
pub record Shutdown : Type 0 where
  pub wait_required : Bool
  pub threads_waiting : Bool
  pub tasks : List ℕ

unfoldable pub begin_shutdown : (ℕ → Bool) → ℕ → Shared ThreadQueue → Shutdown × Shared ThreadQueue
unfolding poll_user_threads
begin_shutdown auto self s = (
  record {
    wait_required = not (is_marked s.object.waiter);
    threads_waiting = not (is_empty s.object.users) || not (is_empty s.object.pending);
    tasks = not_null s.object.shutdown_tasks;
  },
  record {
    object = record (s.object) { waiter = Waiter.thread self };
    monitors = poll_user_threads auto s.object.users s.monitors;
  },
)

-- Whether the destructor then waits for a signal.
abbrev pub waits : Shutdown → ThreadQueue → Bool
waits d q =
    d.threads_waiting && d.wait_required && not (is_empty q.users && not (is_empty q.pending))

-- The rest of it, after that signal: the threads that are reclaimed, and the queue.
unfoldable pub end_shutdown : Shutdown → ThreadQueue → List ℕ × ThreadQueue
unfolding poll_pending_threads
end_shutdown d q =
    let (reclaimed, q') = poll_pending_threads q in
    if d.threads_waiting
    then (reclaimed ++ poll_reference_threads q', q')
    else (poll_reference_threads q, q)
