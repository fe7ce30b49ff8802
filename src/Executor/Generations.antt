-- ===== src/Executor/Generations.antt =====
-- src/PoolExecutor.cxx and src/ThreadedExecutor.cxx: which tasks an interruption reaches.
use zthread.Base.{
  ℕ, ◌+◌, ◌^◌, ◌<◌, ◌≡◌, refl, ap, ◌∙◌, inl, inr, Bool, not, true, false, List, [], ◌∷◌, ◌++◌, ◌==◌,
  arith, Bool-cases,
}
use zthread.Status
use zthread.Monitor.{Monitor}
use zthread.Monitor
use zthread.Waiters.{Monitors, update}
use zthread.Waiters.Stay.{Shared}
use zthread.Blocking.{returns}
use zthread.Queue.Monitored.{MonitoredQueue}
use zthread.Queue.Monitored
use zthread.Executor.Groups.{WaiterQueue, increment, u64}
use zthread.Executor.Pool.{
  Pool, Job, Between, interrupt_all, bump, interrupt, next, prepare, put_queue, after_next,
}
use zthread.Executor.Threaded

abbrev pub IsInterrupted : Monitor → Type 0
IsInterrupted m = m.status.pending.interrupted ≡ true

interrupt-IsInterrupted : (caller : ℕ) (m : Monitor) → IsInterrupted (Monitor.interrupt caller m).1
unfolding Monitor.interrupt Status.pending Status.push
interrupt-IsInterrupted caller m = ground arith

is_interrupted-clear :
    (m : Monitor) → (Monitor.is_interrupted m).1.status.pending.interrupted ≡ false
unfolding Monitor.is_interrupted Status.clear
is_interrupted-clear m = ground arith

update-IsInterrupted :
    (caller u t : ℕ) (ms : Monitors)
    → IsInterrupted (ms t)
    → IsInterrupted (update ms u (Monitor.interrupt caller (ms u)).1 t)
update-IsInterrupted caller u t ms h = elim (Bool-cases (u == t)) [
  | inl e ↦ rw e (interrupt-IsInterrupted caller (ms u))
  | inr e ↦ rw e h
]

same : (t : ℕ) → (t == t) ≡ true
same t = ground arith

-- What other threads do to the monitors does not clear the interruption of this thread.
abbrev pub Keeps : ℕ → (ℕ → Monitors → Monitors) → Type 0
Keeps t others = (u : ℕ) (ms : Monitors) → IsInterrupted (ms t) → IsInterrupted (others u ms t)

module _ (others : ℕ → Monitors → Monitors) (caller t : ℕ) (k : Keeps t others) where
  interrupt_all-keeps :
      (ts : List ℕ) (ms : Monitors)
      → IsInterrupted (ms t)
      → IsInterrupted (interrupt_all others caller ts ms t)
  interrupt_all-keeps [] ms h = h
  interrupt_all-keeps (u ∷ ts) ms h =
      let seen = others u ms in
      interrupt_all-keeps ts (update seen u (Monitor.interrupt caller (seen u)).1)
        (update-IsInterrupted caller u t seen (k u ms h))

  interrupt_all-reaches :
      (before after : List ℕ) (ms : Monitors)
      → IsInterrupted (interrupt_all others caller (before ++ t ∷ after) ms t)
  interrupt_all-reaches [] after ms =
      let seen = others t ms in
      interrupt_all-keeps after (update seen t (Monitor.interrupt caller (seen t)).1)
        (rw (same t) (interrupt-IsInterrupted caller (seen t)))
  interrupt_all-reaches (u ∷ before) after ms =
      let seen = others u ms in
      interrupt_all-reaches before after (update seen u (Monitor.interrupt caller (seen u)).1)

-- Fewer than 2^64 interruptions make another generation, unless there were none.
apart : (g k : ℕ) → g < 2 ^ 64 → k < 2 ^ 64 → (g == u64 (g + k)) ≡ (k == 0)
apart g k h l = ground arith

later : (g : ℕ) → g < 2 ^ 64 → (u64 (g + 1) == g) ≡ false
later g h = ground arith

prepare-IsInterrupted :
    (self : ℕ) (job : Job) (between : Between) (s : Shared Pool) (b : Bool)
    → (job.generation == (between.after_pop s).object.waiting_queue.generation) ≡ b
    → ((prepare self job between s).monitors self).status.pending.interrupted ≡ not b
prepare-IsInterrupted self job between s true e =
    rw (e, same self)
      (is_interrupted-clear ((between.after_compare (between.after_pop s)).monitors self))
prepare-IsInterrupted self job between s false e =
    rw (e, same self)
      (interrupt-IsInterrupted self ((between.after_compare (between.after_pop s)).monitors self))

-- Whatever other threads do between its critical sections, `next` returns the task that the queue
-- gives it, and leaves the thread interrupted exactly when `interrupt` has raised the generation since
-- the task was submitted: `k` times up to the comparison of the generations, fewer than 2^64. So an
-- interruption of the thread that falls between the comparison and the clearing is lost. And
-- `interrupt` raises the generation by one, modulo 2^64, and then, whatever other threads do before it
-- gets the queue's lock, leaves every thread interrupted that is registered when it has it, if nobody
-- clears that thread's interruption while the loop over the threads goes on.
pub pool_interrupt :
    (self caller k : ℕ) (between : Between) (s : Shared Pool) (job : Job) (q : MonitoredQueue Job)
    (others : Shared Pool → Shared Pool) (meanwhile : ℕ → Monitors → Monitors) (r : Shared Pool)
    (before after : List ℕ) (t : ℕ)
    → Monitored.next self s.object.task_queue ≡ returns job q
    → (between.after_pop (put_queue q s)).object.waiting_queue.generation ≡ u64 (job.generation + k)
    → job.generation < 2 ^ 64
    → k < 2 ^ 64
    → (others (bump r)).object.threads ≡ before ++ t ∷ after
    → Keeps t meanwhile
    → ((s' : Shared Pool) × (next self between s ≡ returns job s')
        × ((s'.monitors self).status.pending.interrupted ≡ not (k == 0)))
      × ((bump r).object.waiting_queue.generation ≡ u64 (r.object.waiting_queue.generation + 1))
      × (((interrupt meanwhile caller others r).monitors t).status.pending.interrupted ≡ true)
unfolding next interrupt
pool_interrupt self caller k between s job q others meanwhile r before after t d g l m h keeps = (
  (
    prepare self job between (put_queue q s),
    ap (after_next self between s) d,
    prepare-IsInterrupted self job between (put_queue q s) (k == 0)
        (ap (λ n. job.generation == n) g ∙ apart job.generation k l m),
  ),
  refl,
  ap
        (λ ts.
          (interrupt_all meanwhile caller ts (others (bump r)).monitors
            t).status.pending.interrupted)
        h
      ∙ interrupt_all-reaches meanwhile caller t keeps before after (others (bump r)).monitors,
)

late-IsInterrupted :
    (self g : ℕ) (between : Shared Threaded.Executor → Shared Threaded.Executor)
    (s : Shared Threaded.Executor)
    → (s.object.queue.generation == g) ≡ false
    → IsInterrupted ((Threaded.register_thread g self between s).monitors self)
unfolding Threaded.register_thread
late-IsInterrupted self g between s h =
    rw (h, same self) (interrupt-IsInterrupted self ((between s).monitors self))

early-IsInterrupted :
    (self caller g : ℕ) (others : ℕ → Monitors → Monitors) (s : Shared Threaded.Executor)
    → Keeps self others
    → (s.object.queue.generation == g) ≡ true
    → IsInterrupted (
        (Threaded.interrupt others caller
            (λ x. x)
            (Threaded.register_thread g self (λ x. x) s)).monitors
          self)
unfolding Threaded.register_thread Threaded.interrupt
early-IsInterrupted self caller g others s k h =
    rw h (interrupt_all-reaches others caller self k s.object.threads [] s.monitors)

increment-generation :
    (q : WaiterQueue)
    → ((increment q).0.1 ≡ q.generation) × ((increment q).1.generation ≡ q.generation)
unfolding increment
increment-generation q = (refl, ground arith)

-- A worker of the threaded executor that was made before `interrupt` is interrupted, whether its thread
-- registers only after the interruption or before it, where neither comes between the steps of the
-- other, and nobody clears the thread's interruption while `interrupt` goes on.
pub threaded_interrupt :
    (self caller task : ℕ) (others : ℕ → Monitors → Monitors) (s : Shared Threaded.Executor)
    → s.object.queue.generation < 2 ^ 64
    → Keeps self others
    → (let (w, x) = Threaded.execute task s.object in
        let s' = record s { object = x } in
        (((Threaded.begin_run self w
              (λ x. x)
              (Threaded.interrupt others caller (λ x. x) s')).monitors
            self).status.pending.interrupted
          ≡ true)
        × (((Threaded.interrupt others caller
                (λ x. x)
                (Threaded.begin_run self w (λ x. x) s')).monitors
              self).status.pending.interrupted
            ≡ true))
unfolding Threaded.execute Threaded.interrupt
threaded_interrupt self caller task others s l k =
    let (a, b) = increment-generation s.object.queue in
    let s' = record s { object = (Threaded.execute task s.object).1 } in
    (
      late-IsInterrupted self _ (λ x. x) (Threaded.interrupt others caller (λ x. x) s')
          (rw (a, b) (later s.object.queue.generation l)),
      early-IsInterrupted self caller _ others s' k (rw (a, b) (same s.object.queue.generation)),
    )
