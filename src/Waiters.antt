-- ===== src/Waiters.antt =====
-- What src/SemaphoreImpl.h, src/MutexImpl.h, src/RecursiveMutexImpl.cxx and src/ConditionImpl.h
-- share: lists of waiting threads, the monitors of all threads, one attempt to wake a waiter, and a
-- thread's stay in `wait`.
pub mod Passes
pub mod Stay
pub mod Laws
pub mod Kept
pub mod Broadcast
use zthread.Base.{ℕ, ◌≡◌, ap, Bool, true, false, List, [], ◌∷◌, ◌++◌, arith, ◌==◌, if◌then◌else◌}
use zthread.Monitor.{Monitor}
use zthread.Monitor

-- A `ThreadImpl*` is the thread's number, and its monitor the value there.
abbrev pub Monitors : Type 0
Monitors = ℕ → Monitor

abbrev pub update : Monitors → ℕ → Monitor → Monitors
update ms t m u = if t == u then m else ms u

-- `_waiters.erase(std::find(_waiters.begin(), _waiters.end(), self))`, if it is found
unfoldable pub remove : ℕ → List ℕ → List ℕ
remove t [] = []
remove t (u ∷ us) = if u == t then us else u ∷ remove t us

-- The thread is not in the list.
abbrev pub NotListed : ℕ → List ℕ → Type 0
NotListed t [] = Unit {0}
NotListed t (u ∷ us) = ((u == t) ≡ false) × NotListed t us

pub remove-append_self : (t : ℕ) (us : List ℕ) → NotListed t us → remove t (us ++ t ∷ []) ≡ us
unfolding remove
remove-append_self t [] h = ground arith
remove-append_self t (u ∷ us) h = rw h.0 (ap (◌∷◌ u) (remove-append_self t us h.1))

pub data Attempt : Type 0 where
  busy failed woke : Attempt

-- `if(m.tryAcquire()) { woke = m.notify(); m.release(); … } else …`
unfoldable pub attempt : ℕ → Monitors → Attempt × Monitors
attempt t ms =
    let (free, held) = Monitor.try_acquire (ms t) in
    let (notified, m) = Monitor.notify held in
    if free
    then ((if notified then woke else failed), update ms t (Monitor.release m))
    else (busy, ms)
