-- ===== src/Condition.antt =====
-- src/ConditionImpl.h: a condition over a list of waiting threads. `insert` is that of the list
-- (src/Scheduling.h), and the predicate lock, any Lockable, is an argument.
pub mod Signals
pub mod Relock
pub mod Abstract
pub mod Tests
use zthread.Base.{
  ℕ, ◌||◌, Bool, true, false, Option, none, some, List, [], ◌∷◌, ◌==◌, if◌then◌else◌, is_empty,
}
use zthread.Exceptions.{Exception, Result, ok, throw}
use zthread.Status.{State}
use zthread.Monitor.{Monitor, defer_interruption, end_deferral}
use zthread.Waiters.{Monitors, update, remove}
use zthread.Waiters.Passes.{wake_first, wake_all}
use zthread.Waiters.Stay.{Shared, During, on_object, stay}

-- The waiters, and the state of the predicate lock.
pub record Condition (L : Type 0) : Type 0 where
  pub waiters : List ℕ
  pub predicate : L

-- What a thread's calls of the predicate lock do: `release`, made with the condition's own lock held,
-- to the lock and the monitors; `acquire`, with other threads running until it comes back, to
-- everything; `none` where it never does.
pub record Lockable (L : Type 0) : Type 0 where
  pub release : ℕ → Shared L → Result (Unit {0}) × Shared L
  pub acquire : ℕ → Shared (Condition L) → Option (Result (Unit {0}) × Shared (Condition L))

-- The `switch` of the two functions.
abbrev pub finish_wait : State → Result (Unit {0})
finish_wait State.signaled = ok tt
finish_wait State.interrupted = throw Exception.interrupted
finish_wait _ = throw Exception.synchronization

abbrev pub finish_within : State → Result Bool
finish_within State.signaled = ok true
finish_within State.interrupted = throw Exception.interrupted
finish_within State.timedout = ok false
finish_within _ = throw Exception.synchronization

abbrev pub unless_thrown : {A : Type 0} → Result (Unit {0}) → Result A → Result A
unless_thrown (ok _) q = q
unless_thrown (throw e) q = throw e

module _ {L : Type 0} where
  abbrev pub set_waiters : List ℕ → Monitors → Shared (Condition L) → Shared (Condition L)
  set_waiters ws ms s = record { object = record (s.object) { waiters = ws }; monitors = ms }

  -- One round of the outer loop of `signal`: whether it returns, and what is left.
  unfoldable pub signal_pass : Shared (Condition L) → Bool × Shared (Condition L)
  signal_pass s =
      let p = wake_first s.object.waiters s.monitors in
      (p.returned || is_empty p.waiters, set_waiters p.waiters p.monitors s)

  unfoldable pub broadcast_pass : Shared (Condition L) → Bool × Shared (Condition L)
  broadcast_pass s =
      let p = wake_all s.object.waiters s.monitors in
      (is_empty p.waiters, set_waiters p.waiters p.monitors s)

  -- The outer loops: each entry of the list is what other threads do while the loop backs off, with
  -- the lock free; `none` when the list is at its end and the loop still goes on.
  unfoldable pub repeat :
      (Shared (Condition L) → Bool × Shared (Condition L))
      → List (Shared (Condition L) → Shared (Condition L))
      → Shared (Condition L)
      → Option (Shared (Condition L))
  repeat pass [] s = let (done, s') = pass s in if done then some s' else none
  repeat pass (others ∷ rest) s =
      let (done, s') = pass s in
      let again = repeat pass rest (others s') in if done then some s' else again

  unfoldable pub signal :
      List (Shared (Condition L) → Shared (Condition L))
      → Shared (Condition L)
      → Option (Shared (Condition L))
  signal others s = repeat signal_pass others s

  unfoldable pub broadcast :
      List (Shared (Condition L) → Shared (Condition L))
      → Shared (Condition L)
      → Option (Shared (Condition L))
  broadcast others s = repeat broadcast_pass others s

  abbrev pub enter : (ℕ → List ℕ → List ℕ) → ℕ → Condition L → Condition L
  enter insert self o = record o { waiters = insert self o.waiters }

  abbrev pub depart : ℕ → Condition L → Condition L
  depart self o = record o { waiters = remove self o.waiters }

  abbrev pub on_monitor : ℕ → (Monitor → Monitor) → Shared (Condition L) → Shared (Condition L)
  on_monitor self f s = record s { monitors = update s.monitors self (f (s.monitors self)) }

  -- `_predicateLock.release()`, and what follows unless it throws.
  abbrev pub after_release :
      {A : Type 0}
      → (Shared (Condition L) → Option (Result A × Shared (Condition L)))
      → Shared (Condition L)
      → Result (Unit {0}) × Shared L
      → Option (Result A × Shared (Condition L))
  after_release go s (throw e, p) = some (
    throw e,
    record { object = record (s.object) { predicate = p.object }; monitors = p.monitors },
  )
  after_release go s (ok _, p) =
      go (record { object = record (s.object) { predicate = p.object }; monitors = p.monitors })

  -- Everything after `_predicateLock.acquire()`, with the end of the scope that defers interruptions,
  -- also where the acquisition throws.
  abbrev pub leave :
      {A : Type 0}
      → Result A
      → ℕ
      → Option (Result (Unit {0}) × Shared (Condition L))
      → Option (Result A × Shared (Condition L))
  leave q self none = none
  leave q self (some (locked, s)) = some (unless_thrown locked q, on_monitor self end_deferral s)

  -- From the end of the stay on.
  abbrev pub resume :
      {A : Type 0}
      → (State → Result A)
      → Lockable L
      → ℕ
      → Option (State × Shared (Condition L))
      → Option (Result A × Shared (Condition L))
  resume finish k self none = none
  resume finish k self (some (state, s)) =
      leave (finish state) self
        (k.acquire self (on_monitor self defer_interruption (on_object (depart self) s)))

  unfoldable pub wait :
      (ℕ → List ℕ → List ℕ)
      → Lockable L
      → ℕ
      → During (Condition L)
      → Shared (Condition L)
      → Option (Result (Unit {0}) × Shared (Condition L))
  wait insert k self d s =
      after_release
        (λ s'. resume finish_wait k self (stay self 0 d (on_object (enter insert self) s'))) s
        (k.release self (record { object = s.object.predicate; monitors = s.monitors }))

  unfoldable pub wait_within :
      (ℕ → List ℕ → List ℕ)
      → Lockable L
      → ℕ
      → ℕ
      → During (Condition L)
      → Shared (Condition L)
      → Option (Result Bool × Shared (Condition L))
  wait_within insert k self timeout d s =
      after_release
        (λ s'.
          let entered = on_object (enter insert self) s' in
          resume finish_within k self
            (if timeout == 0 then some (State.timedout, entered) else stay self timeout d entered))
        s (k.release self (record { object = s.object.predicate; monitors = s.monitors }))
