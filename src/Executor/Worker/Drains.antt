-- ===== src/Executor/Worker/Drains.antt =====
-- `Worker::run` of src/PoolExecutor.cxx, of a pool that was canceled.
use zthread.Base.{
  ℕ, ◌≡◌, refl, sym, subst, ap, ◌∙◌, true, false, Option, some, List, [], ◌∷◌, length, arith,
  is_empty, ◌==◌, inl, inr, Bool-cases,
}
use zthread.Exceptions.{Exception, Result, ok, throw}
use zthread.Status
use zthread.Monitor.{Monitor}
use zthread.Monitor
use zthread.Waiters.{update}
use zthread.Waiters.Stay.{Shared}
use zthread.Blocking.{returns, throws}
use zthread.Queue.Monitored.{MonitoredQueue, wake_empty}
use zthread.Queue.Monitored
use zthread.Executor.Pool.{Job, Pool, Between, on_monitor, prepare, put_queue, next}
use zthread.Executor.Worker.{Others, Round, draw, with_job, after_draw, rounds}

-- The thread itself was not canceled.
abbrev pub NotCanceled : Monitor → Type 0
NotCanceled m = Status.examine Status.only_canceled m.status ≡ false

is_canceled-kept :
    (self : ℕ) (m : Monitor)
    → NotCanceled m
    → ((Monitor.is_canceled self m).0 ≡ false) × NotCanceled (Monitor.is_canceled self m).1
unfolding Monitor.is_canceled Status.examine
is_canceled-kept self m h = (h, ground arith)

is_interrupted-kept : (m : Monitor) → NotCanceled m → NotCanceled (Monitor.is_interrupted m).1
unfolding Monitor.is_interrupted Status.examine
is_interrupted-kept m h = ground arith

interrupt-kept : (self : ℕ) (m : Monitor) → NotCanceled m → NotCanceled (Monitor.interrupt self m).1
unfolding Monitor.interrupt Status.examine
interrupt-kept self m h = ground arith

update-here : (ms : ℕ → Monitor) (t : ℕ) (m : Monitor) → update ms t m t ≡ m
update-here ms t m = ground arith

NotCanceled-update :
    (ms : ℕ → Monitor) (t : ℕ) (m : Monitor) → NotCanceled m → NotCanceled (update ms t m t)
NotCanceled-update ms t m h = subst NotCanceled (sym (update-here ms t m)) h

-- A canceled pool with these jobs in its queue and these threads, as this thread meets it.
pub record Closing (self : ℕ) (ts : List ℕ) (js : List Job) (s : Shared Pool) : Type 0 where
  pub queued : s.object.task_queue.queue ≡ js
  pub closed : s.object.task_queue.canceled ≡ true
  pub listed : s.object.threads ≡ ts
  pub goes_on : NotCanceled (s.monitors self)

wake_empty-kept :
    (q : MonitoredQueue Job)
    → ((wake_empty q).queue ≡ q.queue) × ((wake_empty q).canceled ≡ q.canceled)
wake_empty-kept q = elim (Bool-cases (is_empty q.queue)) [
  | inl e ↦ rw e (refl, refl)
  | inr e ↦ rw e (refl, refl)
]

-- What is left of the queue when a job is drawn.
abbrev left_queue : List Job → MonitoredQueue Job → MonitoredQueue Job
left_queue js q = wake_empty (record q { queue = js })

abbrev drawn : ℕ → Job → List Job → Between → Shared Pool → Shared Pool
drawn self job js between s =
    prepare self job between (put_queue (left_queue js s.object.task_queue) s)

next-closed :
    (self : ℕ) (b : Between) (s : Shared Pool)
    → s.object.task_queue.queue ≡ []
    → s.object.task_queue.canceled ≡ true
    → next self b s ≡ throws Exception.cancellation s
unfolding next Monitored.next
next-closed self b s e c = rw (e, c) refl

next-job :
    (self : ℕ) (b : Between) (s : Shared Pool) (job : Job) (js : List Job)
    → s.object.task_queue.queue ≡ job ∷ js
    → next self b s ≡ returns job (drawn self job js b s)
unfolding next Monitored.next
next-job self b s job js e = rw e refl

draw-throws :
    (self : ℕ) (os : Others) (b : Between) (s : Shared Pool) {e : Exception} {s' : Shared Pool}
    → next self b s ≡ throws e s'
    → draw self os b s ≡ some (throw e, s')
unfolding draw
draw-throws self [] b s h = rw (h, draw) refl
draw-throws self (o ∷ os) b s h = rw (h, draw) refl

draw-returns :
    (self : ℕ) (os : Others) (b : Between) (s : Shared Pool) {job : Job} {s' : Shared Pool}
    → next self b s ≡ returns job s'
    → draw self os b s ≡ some (ok job, s')
unfolding draw
draw-returns self [] b s h = rw (h, draw) refl
draw-returns self (o ∷ os) b s h = rw (h, draw) refl

-- What is done leaves such a pool as it is: it touches neither the queue, nor its cancellation, nor the
-- list of threads, and does not cancel this thread.
abbrev pub Keeps : ℕ → List ℕ → (Shared Pool → Shared Pool) → Type 0
Keeps self ts f =
    (js : List Job) (s : Shared Pool) → Closing self ts js s → Closing self ts js (f s)

-- The other threads leave it so in a round.
pub record Quiet (self : ℕ) (ts : List ℕ) (round : Round) : Type 0 where
  pub before : Keeps self ts round.before
  pub after_pop : Keeps self ts round.between.after_pop
  pub after_compare : Keeps self ts round.between.after_compare

abbrev pub AllQuiet : ℕ → List ℕ → List Round → Type 0
AllQuiet self ts [] = Unit {0}
AllQuiet self ts (round ∷ rest) = Quiet self ts round × AllQuiet self ts rest

Closing-on_monitor :
    (self : ℕ) (ts : List ℕ) (js : List Job) (f : Monitor → Monitor) (s : Shared Pool)
    → NotCanceled (f (s.monitors self))
    → Closing self ts js s
    → Closing self ts js (on_monitor self f s)
Closing-on_monitor self ts js f s k c = record {
  queued = c.queued;
  closed = c.closed;
  listed = c.listed;
  goes_on = NotCanceled-update s.monitors self _ k;
}

Closing-put_queue :
    (self : ℕ) (ts : List ℕ) (job : Job) (js : List Job) (s : Shared Pool)
    → Closing self ts (job ∷ js) s
    → Closing self ts js (put_queue (left_queue js s.object.task_queue) s)
Closing-put_queue self ts job js s c =
    let (a, b) = wake_empty-kept (record (s.object.task_queue) { queue = js }) in
    record { queued = a; closed = b ∙ c.closed; listed = c.listed; goes_on = c.goes_on }

Closing-drawn :
    (self : ℕ) (ts : List ℕ) (job : Job) (js : List Job) (r : Round) (s : Shared Pool)
    → Quiet self ts r
    → Closing self ts (job ∷ js) s
    → Closing self ts js (drawn self job js r.between s)
Closing-drawn self ts job js r s k c =
    let compared = r.between.after_pop (put_queue (left_queue js s.object.task_queue) s) in
    let d = k.after_compare js _ (k.after_pop js _ (Closing-put_queue self ts job js s c)) in
    elim (Bool-cases (job.generation == compared.object.waiting_queue.generation)) [
      | inl e ↦ rw e (
          Closing-on_monitor self ts js (λ m. (Monitor.is_interrupted m).1) _
            (is_interrupted-kept _ d.goes_on) d)
      | inr e ↦ rw e (
          Closing-on_monitor self ts js (λ m. (Monitor.interrupt self m).1) _
            (interrupt-kept self _ d.goes_on) d)
    ]

-- The state when `next` is called in a round: after the test of the loop.
abbrev tested : ℕ → Round → Shared Pool → Shared Pool
tested self r s = r.before (on_monitor self (λ _. (Monitor.is_canceled self (s.monitors self)).1) s)

Closing-tested :
    (self : ℕ) (ts : List ℕ) (js : List Job) (r : Round) (s : Shared Pool)
    → Quiet self ts r
    → Closing self ts js s
    → Closing self ts js (tested self r s)
Closing-tested self ts js r s k c = k.before js _ (
    Closing-on_monitor self ts js (λ _. (Monitor.is_canceled self (s.monitors self)).1) s
      (is_canceled-kept self (s.monitors self) c.goes_on).1 c)

module _ (self : ℕ) (ts : List ℕ) (task : Job → Shared Pool → Shared Pool) where
  -- One round of the loop.
  round :
      (r : Round) (rest : List Round) (js : List Job) (s : Shared Pool)
      {x : Option (Result Job × Shared Pool)}
      → Closing self ts js s
      → draw self r.waiting r.between (tested self r s) ≡ x
      → rounds self task (r ∷ rest) s ≡ after_draw task x (rounds self task rest)
  unfolding rounds
  round r rest js s c e = rw ((is_canceled-kept self (s.monitors self) c.goes_on).0, e) refl

  -- A worker of a canceled pool draws every task that is still queued, in the order in which they were
  -- queued, and then its loop ends with a Cancellation_Exception, if its thread is not canceled, and
  -- while it goes on no other thread draws a task, and neither the tasks nor other threads touch the
  -- queue or its cancellation, the list of threads, or whether this thread is canceled. The worker
  -- stays in that list: the exception passes by `unregisterThread`.
  pub canceled_worker_drains :
      (js : List Job) (r : Round) (rest : List Round) (s : Shared Pool)
      → Closing self ts js s
      → ((job : Job) → Keeps self ts (task job))
      → AllQuiet self ts (r ∷ rest)
      → length js ≡ length rest
      → (s' : Shared Pool) × (rounds self task (r ∷ rest) s
          ≡ some (js, (throw Exception.cancellation, s')))
        × (s'.object.threads ≡ ts)
  canceled_worker_drains [] r rest s c k (q, qs) l =
      let t = Closing-tested self ts [] r s q c in
      (
        tested self r s,
        round r rest [] s c (
            draw-throws self r.waiting r.between (tested self r s)
              (next-closed self r.between (tested self r s) t.queued t.closed)),
        t.listed,
      )
  canceled_worker_drains (job ∷ js) r [] s c k q l = absurd (omega (arith, l))
  canceled_worker_drains (job ∷ js) r (o ∷ rest) s c k (q, qs) l =
      let t = Closing-tested self ts (job ∷ js) r s q c in
      let d = drawn self job js r.between (tested self r s) in
      let (s', e, listed) =
        canceled_worker_drains js o rest (task job d)
          (k job js d (Closing-drawn self ts job js r (tested self r s) q t)) k qs
          (omega (arith, l)) in
      (
        s',
        round r (o ∷ rest) (job ∷ js) s c (
              draw-returns self r.waiting r.between (tested self r s)
                (next-job self r.between (tested self r s) job js t.queued))
            ∙ ap (with_job job) e,
        listed,
      )
