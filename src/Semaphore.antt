-- ===== src/Semaphore.antt =====
-- src/SemaphoreImpl.h: a counting semaphore over a list of waiting threads. `insert` is that of the
-- list (src/Scheduling.h). An `int` does not wrap here.
pub mod Release
pub mod Acquire
pub mod System
pub mod Tests
use zthread.Base.{
  ℕ, Bool, true, false, ◌&&◌, ◌||◌, Option, none, some, List, [], ◌∷◌, ◌++◌, ◌==◌, if◌then◌else◌,
  is_empty,
}
use zthread.Base.Int.{ℤ, pos, negsuc, suc_ℤ, pred_ℤ, is_positive, is_zero}
use zthread.Exceptions.{Exception, Result, ok, throw}
use zthread.Status.{State}
use zthread.Waiters.{Monitors, remove}
use zthread.Waiters.Passes.{wake_first}
use zthread.Waiters.Stay.{Shared, During, on_object, stay}

pub record Semaphore : Type 0 where
  pub waiters : List ℕ
  pub count : ℤ
  pub max_count : ℤ
  pub checked : Bool
  pub entry_count : ℤ

abbrev pub init : ℤ → ℤ → Bool → Semaphore
init count max_count checked = record {
  waiters = [];
  count = count;
  max_count = max_count;
  checked = checked;
  entry_count = pos 0;
}

abbrev pub equal_ℤ : ℤ → ℤ → Bool
equal_ℤ (pos a) (pos b) = a == b
equal_ℤ (pos a) (negsuc b) = false
equal_ℤ (negsuc a) (pos b) = false
equal_ℤ (negsuc a) (negsuc b) = a == b

-- `count()`.
abbrev pub current_count : Semaphore → ℤ
current_count s = s.count

-- `_count > 0 && _entryCount == 0`
abbrev pub available : Semaphore → Bool
available s = is_positive s.count && is_zero s.entry_count

abbrev pub take_permit : Semaphore → Semaphore
take_permit s = record s { count = pred_ℤ s.count }

-- What follows a stay: the waiter leaves the list and the entry count.
abbrev pub depart : ℕ → Semaphore → Semaphore
depart self s = record s { waiters = remove self s.waiters; entry_count = pred_ℤ s.entry_count }

-- The `switch` of `acquire`.
unfoldable pub finish_acquire : State → Semaphore → Result (Unit {0}) × Semaphore
finish_acquire State.signaled s = (ok tt, take_permit s)
finish_acquire State.interrupted s = (throw Exception.interrupted, s)
finish_acquire _ s = (throw Exception.synchronization, s)

-- The `switch` of `tryAcquire`.
unfoldable pub finish_try : State → Semaphore → Result Bool × Semaphore
finish_try State.signaled s = (ok true, take_permit s)
finish_try State.interrupted s = (throw Exception.interrupted, s)
finish_try State.timedout s = (ok false, s)
finish_try _ s = (throw Exception.synchronization, s)

-- From the end of the stay on.
abbrev pub resume :
    {A : Type 0}
    → (State → Semaphore → Result A × Semaphore)
    → ℕ
    → Option (State × Shared Semaphore)
    → Option (Result A × Shared Semaphore)
resume finish self none = none
resume finish self (some (state, s)) =
    let (r, object) = finish state (depart self s.object) in some (r, record s { object = object })

-- The lists that a thread joins: `_waiters.insert` in `acquire`, `push_back` in `tryAcquire`.
abbrev pub enter : List ℕ → Semaphore → Semaphore
enter ws s = record s { waiters = ws; entry_count = suc_ℤ s.entry_count }

unfoldable pub acquire :
    (ℕ → List ℕ → List ℕ)
    → ℕ
    → During Semaphore
    → Shared Semaphore
    → Option (Result (Unit {0}) × Shared Semaphore)
unfolding finish_acquire
acquire insert self d s =
    if available s.object
    then some (ok tt, on_object take_permit s)
    else resume finish_acquire self
        (stay self 0 d (on_object (enter (insert self s.object.waiters)) s))

unfoldable pub try_acquire :
    ℕ → ℕ → During Semaphore → Shared Semaphore → Option (Result Bool × Shared Semaphore)
unfolding finish_try
try_acquire self timeout d s =
    let entered = on_object (enter (s.object.waiters ++ self ∷ [])) s in
    if available s.object
    then some (ok true, on_object take_permit s)
    else resume finish_try self
        (if timeout == 0 then some (State.timedout, entered) else stay self timeout d entered)

-- One round of the outer loop of `release`: the pass over the waiters, and whether it returns.
unfoldable pub release_pass : Shared Semaphore → Bool × Shared Semaphore
release_pass s =
    let p = wake_first s.object.waiters s.monitors in
    (
      p.returned || is_empty p.waiters,
      record { object = record (s.object) { waiters = p.waiters }; monitors = p.monitors },
    )

-- The outer loop: each entry of the list is what other threads do while it backs off, with the lock
-- free; `none` when the list is at its end and the loop still goes on.
unfoldable pub release_loop :
    List (Shared Semaphore → Shared Semaphore) → Shared Semaphore → Option (Shared Semaphore)
release_loop [] s = let (done, s') = release_pass s in if done then some s' else none
release_loop (others ∷ rest) s =
    let (done, s') = release_pass s in
    let again = release_loop rest (others s') in if done then some s' else again

unfoldable pub release :
    List (Shared Semaphore → Shared Semaphore)
    → Shared Semaphore
    → Option (Result (Unit {0}) × Shared Semaphore)
release others s =
    if s.object.checked && equal_ℤ s.object.count s.object.max_count
    then some (throw Exception.invalid_op, s)
    else elim (release_loop others (on_object (λ o. record o { count = suc_ℤ o.count }) s)) [
      | none ↦ none
      | some s' ↦ some (ok tt, s')
    ]
