-- ===== src/RecursiveMutex.antt =====
-- src/RecursiveMutexImpl.h and src/RecursiveMutexImpl.cxx: a mutex that its owner may acquire again.
-- A `Monitor*` is the number of the thread that owns the monitor. `_count` is a `size_t` of 64 bits.
pub mod Nesting
pub mod Handover
pub mod Tests
use zthread.Base.{
  ℕ, ◌+◌, ◌-◌, ◌%◌, ◌^◌, Bool, true, false, ◌&&◌, ◌||◌, Option, none, some, List, [], ◌∷◌, ◌++◌,
  ◌==◌, if◌then◌else◌, is_empty,
}
use zthread.Exceptions.{Exception, Result, ok, throw}
use zthread.Status.{State}
use zthread.Waiters.{Monitors, remove}
use zthread.Waiters.Passes.{wake_kept}
use zthread.Waiters.Stay.{Shared, During, on_object, stay}

pub record RecursiveMutex : Type 0 where
  pub waiters : List ℕ
  pub owner : Option ℕ
  pub count : ℕ

abbrev pub init : RecursiveMutex
init = record { waiters = []; owner = none; count = 0 }

abbrev pub increment : ℕ → ℕ
increment n = (n + 1) % 2 ^ 64

abbrev pub decrement : ℕ → ℕ
decrement n = (n + 2 ^ 64 - 1) % 2 ^ 64

abbrev pub owned_by : ℕ → RecursiveMutex → Bool
owned_by self o = elim o.owner [ none ↦ false | some t ↦ t == self ]

abbrev pub available : RecursiveMutex → Bool
available o = (elim o.owner [ none ↦ true | some t ↦ false ]) && is_empty o.waiters

abbrev pub enter_again : RecursiveMutex → RecursiveMutex
enter_again o = record o { count = increment o.count }

abbrev pub take_lock : ℕ → RecursiveMutex → RecursiveMutex
take_lock self o = record o { owner = some self; count = increment o.count }

abbrev pub enter : ℕ → RecursiveMutex → RecursiveMutex
enter self o = record o { waiters = o.waiters ++ self ∷ [] }

abbrev pub depart : ℕ → RecursiveMutex → RecursiveMutex
depart self o = record o { waiters = remove self o.waiters }

-- The `switch` of `acquire`; the assertions that the mutex is free are not compiled in.
unfoldable pub finish_acquire : ℕ → State → RecursiveMutex → Result (Unit {0}) × RecursiveMutex
finish_acquire self State.signaled o = (ok tt, take_lock self o)
finish_acquire self State.interrupted o = (throw Exception.interrupted, o)
finish_acquire self _ o = (throw Exception.synchronization, o)

-- The `switch` of `tryAcquire`.
unfoldable pub finish_try : ℕ → State → RecursiveMutex → Result Bool × RecursiveMutex
finish_try self State.signaled o = (ok true, take_lock self o)
finish_try self State.interrupted o = (throw Exception.interrupted, o)
finish_try self State.timedout o = (ok false, o)
finish_try self _ o = (throw Exception.synchronization, o)

-- From the end of the stay on.
abbrev pub resume :
    {A : Type 0}
    → (State → RecursiveMutex → Result A × RecursiveMutex)
    → ℕ
    → Option (State × Shared RecursiveMutex)
    → Option (Result A × Shared RecursiveMutex)
resume finish self none = none
resume finish self (some (state, s)) =
    let (r, object) = finish state (depart self s.object) in some (r, record s { object = object })

unfoldable pub acquire :
    ℕ
    → During RecursiveMutex
    → Shared RecursiveMutex
    → Option (Result (Unit {0}) × Shared RecursiveMutex)
acquire self d s =
    if owned_by self s.object
    then some (ok tt, on_object enter_again s)
    else if available s.object
    then some (ok tt, on_object (take_lock self) s)
    else resume (finish_acquire self) self (stay self 0 d (on_object (enter self) s))

unfoldable pub try_acquire :
    ℕ
    → ℕ
    → During RecursiveMutex
    → Shared RecursiveMutex
    → Option (Result Bool × Shared RecursiveMutex)
try_acquire self timeout d s =
    let entered = on_object (enter self) s in
    if owned_by self s.object
    then some (ok true, on_object enter_again s)
    else if available s.object
    then some (ok true, on_object (take_lock self) s)
    else resume (finish_try self) self
        (if timeout == 0 then some (State.timedout, entered) else stay self timeout d entered)

-- What other threads do in one round of `release`: between the attempts at one waiter, and then while
-- the loop backs off.
pub record Round : Type 0 where
  pub between : List (Monitors → Monitors)
  pub others : Shared RecursiveMutex → Shared RecursiveMutex

-- One round of the outer loop: whether it returns, and what is left.
unfoldable pub release_pass :
    List (Monitors → Monitors) → Shared RecursiveMutex → Option (Bool × Shared RecursiveMutex)
release_pass between s = elim (wake_kept between s.object.waiters s.monitors) [
  | none ↦ none
  | some (woke, ms) ↦ some (woke || is_empty s.object.waiters, record s { monitors = ms })
]

abbrev pub after_pass :
    (Shared RecursiveMutex → Option (Shared RecursiveMutex))
    → Option (Bool × Shared RecursiveMutex)
    → Option (Shared RecursiveMutex)
after_pass again none = none
after_pass again (some (true, s)) = some s
after_pass again (some (false, s)) = again s

-- The outer loop: `none` when the rounds are at their end and it still goes on.
unfoldable pub release_loop : List Round → Shared RecursiveMutex → Option (Shared RecursiveMutex)
release_loop [] s = none
release_loop (r ∷ rs) s =
    after_pass (λ s'. release_loop rs (r.others s')) (release_pass r.between s)

abbrev pub succeed :
    Option (Shared RecursiveMutex) → Option (Result (Unit {0}) × Shared RecursiveMutex)
succeed none = none
succeed (some s) = some (ok tt, s)

unfoldable pub release :
    ℕ → List Round → Shared RecursiveMutex → Option (Result (Unit {0}) × Shared RecursiveMutex)
release self rounds s =
    let lowered = on_object (λ o. record o { count = decrement o.count }) s in
    if owned_by self s.object
    then (if lowered.object.count == 0
        then succeed (release_loop rounds (on_object (λ o. record o { owner = none }) lowered))
        else some (ok tt, lowered))
    else some (throw Exception.invalid_op, s)
