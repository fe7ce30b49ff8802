-- ===== src/Executor/Synchronous.antt =====
-- src/SynchronousExecutor.cxx: an executor that runs each task in the thread that submits it, under its
-- lock. The lock is an argument, as in `Guard`; its `acquire` may let other threads run first, so it is a
-- function of the whole state, of which `rest` is what the executor does not know.
use zthread.Base.{◌≡◌, refl, ap, ◌∙◌, Bool, true, false, if◌then◌else◌}
use zthread.Exceptions.{Exception, Result, ok, throw}
use zthread.Guard.{Lock, chain, locked_scope, end_scope, scoped}
use zthread.Guard.Scopes.{IsLock, guard_restores}

pub record SynchronousExecutor (R : Type 0) : Type 0 where
  pub canceled : Bool
  pub rest : R

either : {A : Type 0} (P : A → Type 0) (c : Bool) {x y : A} → P x → P y → P (if c then x else y)
either P true p q = p
either P false p q = q

module _ {R : Type 0} where
  abbrev pub init : R → SynchronousExecutor R
  init rest = record { canceled = false; rest = rest }

  abbrev pub set_canceled : SynchronousExecutor R → Result (Unit {0}) × SynchronousExecutor R
  set_canceled e = (ok tt, record e { canceled = true })

  unfoldable pub cancel :
      Lock (SynchronousExecutor R)
      → SynchronousExecutor R
      → Result (Unit {0}) × SynchronousExecutor R
  unfolding scoped
  cancel k s = scoped (locked_scope k) set_canceled s

  unfoldable pub is_canceled :
      Lock (SynchronousExecutor R) → SynchronousExecutor R → Result Bool × SynchronousExecutor R
  unfolding scoped
  is_canceled k s = scoped (locked_scope k) (λ e. (ok e.canceled, e)) s

  -- With the lock: the second test, and the task, which may throw.
  abbrev pub run_task :
      (SynchronousExecutor R → Result (Unit {0}) × SynchronousExecutor R)
      → SynchronousExecutor R
      → Result (Unit {0}) × SynchronousExecutor R
  run_task task e = if e.canceled then (throw Exception.cancellation, e) else task e

  unfoldable pub execute :
      Lock (SynchronousExecutor R)
      → (SynchronousExecutor R → Result (Unit {0}) × SynchronousExecutor R)
      → SynchronousExecutor R
      → Result (Unit {0}) × SynchronousExecutor R
  unfolding scoped
  execute k task s =
      if s.canceled
      then (throw Exception.cancellation, s)
      else scoped (locked_scope k) (run_task task) s

  -- The first argument is what `Thread::interrupted` answers. The wait with a timeout ignores it.
  unfoldable pub wait :
      Bool
      → Lock (SynchronousExecutor R)
      → SynchronousExecutor R
      → Result Bool × SynchronousExecutor R
  unfolding scoped
  wait interrupted k s =
      if interrupted
      then (throw Exception.interrupted, s)
      else scoped (locked_scope k) (λ e. (ok true, e)) s

  module _ (Free Held : SynchronousExecutor R → Type 0) (k : Lock (SynchronousExecutor R))
      (law : IsLock Free Held k) where
    -- Where `acquire` leaves the lock held and nothing else makes it held, and `release` leaves it free: a
    -- task is run with the lock, one at a time, and whatever it throws, `execute` leaves the lock free, if the task
    -- leaves it held.
    pub execute_frees :
        (task : SynchronousExecutor R → Result (Unit {0}) × SynchronousExecutor R)
        (s : SynchronousExecutor R)
        → Free s
        → ((e : SynchronousExecutor R) → Held e → Held (task e).1)
        → Free (execute k task s).1
    unfolding execute
    execute_frees task s f b =
        either (λ (x : Result (Unit {0}) × SynchronousExecutor R). Free x.1) s.canceled f
          (guard_restores Free Held k law (run_task task) 0 s f (λ e h.
            either (λ (x : Result (Unit {0}) × SynchronousExecutor R). Held x.1) e.canceled h
              (b e h))).0

  -- Where the lock's `release` takes no cancellation back: once `cancel` has come back without an exception,
  -- `execute` throws a Cancellation_Exception and runs no task; and it runs none either where another
  -- thread cancels the executor after its first test and before it gets the lock.
  pub canceled_runs_nothing :
      (k : Lock (SynchronousExecutor R))
      (task : SynchronousExecutor R → Result (Unit {0}) × SynchronousExecutor R)
      (s r e : SynchronousExecutor R)
      → ((e : SynchronousExecutor R) → e.canceled ≡ true → (k.release e).1.canceled ≡ true)
      → (cancel k s).0 ≡ ok tt
      → r.canceled ≡ false
      → k.acquire r ≡ (ok tt, e)
      → e.canceled ≡ true
      → (execute k task (cancel k s).1 ≡ (throw Exception.cancellation, (cancel k s).1))
        × (execute k task r ≡ (throw Exception.cancellation, (k.release e).1))
  unfolding execute cancel scoped
  canceled_runs_nothing k task s r e keeps h n a c = (
    rw (sets (k.acquire s) h) refl,
    ap
          (λ q.
            if q
            then (throw Exception.cancellation, r)
            else scoped (locked_scope k) (run_task task) r)
          n
        ∙ ap (λ x. chain x (λ _ l. end_scope k.release (run_task task l))) a
        ∙ ap (λ q. end_scope k.release (if q then (throw Exception.cancellation, e) else task e)) c,
  )
    where
      sets :
          (x : Result (Unit {0}) × SynchronousExecutor R)
          → (chain x (λ _ l. end_scope k.release (set_canceled l))).0 ≡ ok tt
          → (chain x (λ _ l. end_scope k.release (set_canceled l))).1.canceled ≡ true
      sets (ok _, l) q = keeps (record l { canceled = true }) refl
      sets (throw _, l) q = cc
