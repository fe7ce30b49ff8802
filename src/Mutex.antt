-- ===== src/Mutex.antt =====
-- src/MutexImpl.h: an exclusive lock over a list of waiting threads. `insert` is that of the list
-- (src/Scheduling.h), and the behavior is NullBehavior, whose four functions do nothing.
pub mod Release
pub mod Acquire
pub mod System
pub mod Tests
use zthread.Base.{
  ℕ, Bool, true, false, ◌&&◌, ◌||◌, Option, none, some, List, [], ◌∷◌, ◌==◌, if◌then◌else◌,
  is_empty,
}
use zthread.Exceptions.{Exception, Result, ok, throw}
use zthread.Status.{State}
use zthread.Waiters.{Monitors, remove}
use zthread.Waiters.Passes.{wake_kept}
use zthread.Waiters.Stay.{Shared, During, on_object, stay}

pub record Mutex : Type 0 where
  pub waiters : List ℕ
  pub owner : Option ℕ

abbrev pub init : Mutex
init = record { waiters = []; owner = none }

abbrev pub owned_by : ℕ → Mutex → Bool
owned_by self o = elim o.owner [ none ↦ false | some t ↦ t == self ]

-- `_owner == 0 && _waiters.empty()`
abbrev pub available : Mutex → Bool
available o = (elim o.owner [ none ↦ true | some t ↦ false ]) && is_empty o.waiters

abbrev pub take_lock : ℕ → Mutex → Mutex
take_lock self o = record o { owner = some self }

abbrev pub enter : (ℕ → List ℕ → List ℕ) → ℕ → Mutex → Mutex
enter insert self o = record o { waiters = insert self o.waiters }

abbrev pub depart : ℕ → Mutex → Mutex
depart self o = record o { waiters = remove self o.waiters }

-- The `switch` of `acquire`; the assertion that the mutex is free is not compiled in.
unfoldable pub finish_acquire : ℕ → State → Mutex → Result (Unit {0}) × Mutex
finish_acquire self State.signaled o = (ok tt, take_lock self o)
finish_acquire self State.interrupted o = (throw Exception.interrupted, o)
finish_acquire self _ o = (throw Exception.synchronization, o)

-- The `switch` of `tryAcquire`.
unfoldable pub finish_try : ℕ → State → Mutex → Result Bool × Mutex
finish_try self State.signaled o = (ok true, take_lock self o)
finish_try self State.interrupted o = (throw Exception.interrupted, o)
finish_try self State.timedout o = (ok false, o)
finish_try self _ o = (throw Exception.synchronization, o)

-- From the end of the stay on.
abbrev pub resume :
    {A : Type 0}
    → (State → Mutex → Result A × Mutex)
    → ℕ
    → Option (State × Shared Mutex)
    → Option (Result A × Shared Mutex)
resume finish self none = none
resume finish self (some (state, s)) =
    let (r, object) = finish state (depart self s.object) in some (r, record s { object = object })

unfoldable pub acquire :
    (ℕ → List ℕ → List ℕ)
    → ℕ
    → During Mutex
    → Shared Mutex
    → Option (Result (Unit {0}) × Shared Mutex)
acquire insert self d s =
    if owned_by self s.object
    then some (throw Exception.deadlock, s)
    else if available s.object
    then some (ok tt, on_object (take_lock self) s)
    else resume (finish_acquire self) self (stay self 0 d (on_object (enter insert self) s))

unfoldable pub try_acquire :
    (ℕ → List ℕ → List ℕ)
    → ℕ
    → ℕ
    → During Mutex
    → Shared Mutex
    → Option (Result Bool × Shared Mutex)
try_acquire insert self timeout d s =
    let entered = on_object (enter insert self) s in
    if owned_by self s.object
    then some (throw Exception.deadlock, s)
    else if available s.object
    then some (ok true, on_object (take_lock self) s)
    else resume (finish_try self) self
        (if timeout == 0 then some (State.timedout, entered) else stay self timeout d entered)

-- One round of the outer loop of `release`: whether it returns, and what is left. The first argument
-- is what other threads do to the monitors between the attempts at one waiter.
unfoldable pub release_pass :
    List (Monitors → Monitors) → Shared Mutex → Option (Bool × Shared Mutex)
release_pass between s = elim (wake_kept between s.object.waiters s.monitors) [
  | none ↦ none
  | some (woke, ms) ↦ some (woke || is_empty s.object.waiters, record s { monitors = ms })
]

-- What other threads do in one round: between the attempts, and then while the loop backs off.
pub record Round : Type 0 where
  pub between : List (Monitors → Monitors)
  pub others : Shared Mutex → Shared Mutex

abbrev pub after_pass :
    (Shared Mutex → Option (Shared Mutex)) → Option (Bool × Shared Mutex) → Option (Shared Mutex)
after_pass again none = none
after_pass again (some (true, s)) = some s
after_pass again (some (false, s)) = again s

-- The outer loop: `none` when the rounds are at their end and it still goes on.
unfoldable pub release_loop : List Round → Shared Mutex → Option (Shared Mutex)
release_loop [] s = none
release_loop (r ∷ rs) s =
    after_pass (λ s'. release_loop rs (r.others s')) (release_pass r.between s)

unfoldable pub release : ℕ → List Round → Shared Mutex → Option (Result (Unit {0}) × Shared Mutex)
release self rounds s =
    if owned_by self s.object
    then (elim (release_loop rounds (on_object (λ o. record o { owner = none }) s)) [
      | none ↦ none
      | some s' ↦ some (ok tt, s')
    ])
    else some (throw Exception.invalid_op, s)
