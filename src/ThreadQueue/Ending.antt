-- ===== src/ThreadQueue/Ending.antt =====
-- `ThreadQueue::~ThreadQueue` of src/ThreadQueue.cxx: what happens when `main` ends.
use zthread.Base.{
  ℕ, ◌≡◌, refl, ap, ◌∙◌, inl, inr, Bool, true, false, not, List, [], ◌∷◌, ◌++◌, ◌==◌, arith,
  Bool-cases, is_empty,
}
use zthread.Status
use zthread.Monitor.{Monitor}
use zthread.Monitor
use zthread.Waiters.{Monitors, remove}
use zthread.Waiters.Stay.{Shared}
use zthread.ThreadQueue.{
  Waiter, ThreadQueue, Shutdown, auto_cancel, insert_pending_thread, insert_user_thread,
  poll_user_threads, poll_pending_threads, begin_shutdown, waits, remove_shutdown_task, listed,
  not_null,
}

abbrev IsCanceled : Monitor → Type 0
IsCanceled m = m.status.pending.canceled ≡ true

cancel-IsCanceled : (m : Monitor) → IsCanceled (Monitor.cancel m).1
unfolding Monitor.cancel Status.push
cancel-IsCanceled m = ground arith

auto_cancel-keeps :
    (auto : ℕ → Bool) (u t : ℕ) (ms : Monitors)
    → IsCanceled (ms t)
    → IsCanceled (auto_cancel auto u ms t)
auto_cancel-keeps auto u t ms h = elim (Bool-cases (auto u)) [
  | inl a ↦ elim (Bool-cases (u == t)) [
    | inl e ↦ rw (a, e) (cancel-IsCanceled (ms u))
    | inr e ↦ rw (a, e) h
  ]
  | inr a ↦ rw a h
]

poll_user_threads-keeps :
    (auto : ℕ → Bool) (us : List ℕ) (t : ℕ) (ms : Monitors)
    → IsCanceled (ms t)
    → IsCanceled (poll_user_threads auto us ms t)
unfolding poll_user_threads
poll_user_threads-keeps auto [] t ms h = h
poll_user_threads-keeps auto (u ∷ us) t ms h =
    poll_user_threads-keeps auto us t (auto_cancel auto u ms) (auto_cancel-keeps auto u t ms h)

same : (t : ℕ) → (t == t) ≡ true
same t = ground arith

auto_cancel-IsCanceled :
    (auto : ℕ → Bool) (t : ℕ) (ms : Monitors) → auto t ≡ true → IsCanceled (auto_cancel auto t ms t)
auto_cancel-IsCanceled auto t ms a = rw (a, same t) (cancel-IsCanceled (ms t))

poll_user_threads-reaches :
    (auto : ℕ → Bool) (before after : List ℕ) (t : ℕ) (ms : Monitors)
    → auto t ≡ true
    → IsCanceled (poll_user_threads auto (before ++ t ∷ after) ms t)
unfolding poll_user_threads
poll_user_threads-reaches auto [] after t ms a =
    poll_user_threads-keeps auto after t (auto_cancel auto t ms)
      (auto_cancel-IsCanceled auto t ms a)
poll_user_threads-reaches auto (u ∷ before) after t ms a =
    poll_user_threads-reaches auto before after t (auto_cancel auto u ms) a

started-IsCanceled :
    (auto : ℕ → Bool) (t self : ℕ) (s : Shared ThreadQueue)
    → s.object.waiter ≡ Waiter.thread self
    → auto t ≡ true
    → IsCanceled ((insert_user_thread auto t s).1.monitors t)
unfolding insert_user_thread poll_pending_threads
started-IsCanceled auto t self s w a = rw w (auto_cancel-IsCanceled auto t s.monitors a)

-- When `main` ends, every user thread that is to be canceled then is canceled, and so is every such
-- thread that starts afterwards.
pub shutdown_cancels :
    (auto : ℕ → Bool) (self : ℕ) (s : Shared ThreadQueue) (before after : List ℕ) (t u : ℕ)
    → s.object.users ≡ before ++ t ∷ after
    → auto t ≡ true
    → auto u ≡ true
    → let s' = (begin_shutdown auto self s).1 in
      ((s'.monitors t).status.pending.canceled ≡ true)
      × (((insert_user_thread auto u s').1.monitors u).status.pending.canceled ≡ true)
unfolding begin_shutdown
shutdown_cancels auto self s before after t u e a b = (
  ap (λ us. (poll_user_threads auto us s.monitors t).status.pending.canceled) e
      ∙ poll_user_threads-reaches auto before after t s.monitors a,
  started-IsCanceled auto u self (begin_shutdown auto self s).1 refl b,
)

notify-signaled :
    (m : Monitor)
    → Status.pending Status.only_interrupted m.status ≡ false
    → (Monitor.notify m).1.status.pending.signaled ≡ true
unfolding Monitor.notify Status.push
notify-signaled m h = ground arith

alone : (t : ℕ) → remove t (t ∷ []) ≡ []
unfolding remove
alone t = rw (same t) refl

-- With one user thread left, a destructor that has begun, with threads to wait for and without the
-- mark, waits; the end of that thread leaves the destructor's thread, if it has no interruption
-- pending, with a signal, and a destructor that has not begun to wait by then does not wait.
pub last_thread_ends_wait :
    (d : Shutdown) (self t : ℕ) (s : Shared ThreadQueue)
    → s.object.waiter ≡ Waiter.thread self
    → s.object.users ≡ t ∷ []
    → d.wait_required ≡ true
    → d.threads_waiting ≡ true
    → Status.pending Status.only_interrupted (s.monitors self).status ≡ false
    → (waits d s.object ≡ true)
      × (((insert_pending_thread t s).monitors self).status.pending.signaled ≡ true)
      × (waits d (insert_pending_thread t s).object ≡ false)
unfolding insert_pending_thread
last_thread_ends_wait d self t s w e r p i =
    let gone : remove t s.object.users ≡ [] = ap (remove t) e ∙ alone t in
    (
      rw (p, r, e) refl,
      rw (gone, w, same self) (notify-signaled (s.monitors self) i),
      rw (gone, w, p, r) (no_wait s.object.pending),
    )
  where
    no_wait : (ts : List ℕ) → not (not (is_empty (ts ++ t ∷ []))) ≡ false
    no_wait [] = refl
    no_wait (u ∷ us) = refl

-- The end of a thread that leaves no user threads sets a mark, although `main` still runs: a thread
-- that starts next is canceled at once, if it is to be canceled when `main` ends, and the
-- destructor does not wait for it while it is a user thread.
pub marked_forgets :
    (auto : ℕ → Bool) (self t u : ℕ) (s : Shared ThreadQueue)
    → s.object.waiter ≡ Waiter.nobody
    → s.object.users ≡ t ∷ []
    → auto u ≡ true
    → let s1 = (insert_user_thread auto u (insert_pending_thread t s)).1 in
      let (d, s2) = begin_shutdown auto self s1 in
      (s1.object.users ≡ u ∷ [])
      × ((s1.monitors u).status.pending.canceled ≡ true)
      × (waits d s2.object ≡ false)
unfolding insert_user_thread insert_pending_thread begin_shutdown poll_pending_threads
marked_forgets auto self t u s w e a =
    let gone : remove t s.object.users ≡ [] = ap (remove t) e ∙ alone t in
    (
      rw (gone, w) refl,
      rw (gone, w) (auto_cancel-IsCanceled auto u s.monitors a),
      rw (gone, w) refl,
    )

-- The destructor copies the tasks and leaves the list: `removeShutdownTask` still answers true for a
-- listed task, as if it would not be run, although it is one of those that the destructor runs,
-- if it is not null.
pub removed_too_late :
    (auto : ℕ → Bool) (self task : ℕ) (s : Shared ThreadQueue)
    → listed task s.object.shutdown_tasks ≡ true
    → (task == 0) ≡ false
    → let (d, s') = begin_shutdown auto self s in
      (listed task d.tasks ≡ true) × ((remove_shutdown_task task s'.object).0 ≡ true)
unfolding begin_shutdown remove_shutdown_task
removed_too_late auto self task s h n = (kept s.object.shutdown_tasks h, h)
  where
    kept : (ts : List ℕ) → listed task ts ≡ true → listed task (not_null ts) ≡ true
    kept [] h' = h'
    kept (t ∷ ts) h' = ground (arith, kept ts)
