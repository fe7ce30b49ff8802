-- ===== src/Waiters/Stay.antt =====
-- A thread's stay in `m.wait(…)`: the object's lock is free meanwhile, so other threads may use the
-- object and the monitors.
use zthread.Base.{ℕ, ◌≡◌, refl, sym, ap, Option, none, some, List}
use zthread.Status.{State}
use zthread.Monitor
use zthread.Monitor.Wait.{Clock, Timespec, Wakeup, wait}
use zthread.Waiters.{Monitors, update}

-- A synchronization object with the monitors of all threads.
pub record Shared (A : Type 0) : Type 0 where
  pub object : A
  pub monitors : Monitors

abbrev pub on_object : {A : Type 0} → (A → A) → Shared A → Shared A
on_object f s = record s { object = f s.object }

-- What happens during one stay: the clock's reading, the wakeups of the thread with the calls on its
-- monitor, and what other threads make of the object and of the other monitors.
pub record During (A : Type 0) : Type 0 where
  pub clock : Clock
  pub wakeups : Option Timespec → List Wakeup
  pub others : Shared A → Shared A

-- What the thread comes back to, from the outcome of its `wait`.
abbrev pub come_back :
    {A : Type 0}
    → ℕ
    → During A
    → Shared A
    → Option (State × Monitor.Monitor)
    → Option (State × Shared A)
come_back self d s none = none
come_back self d s (some (state, m)) =
    let s' = d.others s in
    some (state, record s' { monitors = update s'.monitors self (Monitor.release m) })

-- `m.acquire(); { unlock the object; state = m.wait(ms); } m.release();`
unfoldable pub stay : {A : Type 0} → ℕ → ℕ → During A → Shared A → Option (State × Shared A)
stay self ms d s =
    come_back self d s (wait self d.clock ms d.wakeups (Monitor.acquire (s.monitors self)))

come_back-object :
    {A : Type 0} (self : ℕ) (d : During A) (s : Shared A) (w : Option (State × Monitor.Monitor))
    {state : State} {s' : Shared A}
    → come_back self d s w ≡ some (state, s')
    → s'.object ≡ (d.others s).object
come_back-object self d s none h = cc
come_back-object {A} self d s (some (st, m)) h =
    sym (ap (λ (x : Option (State × Shared A)). object_of x (d.others s).object) h)
  where
    object_of : Option (State × Shared A) → A → A
    object_of none a = a
    object_of (some (_, x)) a = x.object

-- Only other threads change the object while one stays.
pub stay-object :
    {A : Type 0} (self ms : ℕ) (d : During A) (s : Shared A) {state : State} {s' : Shared A}
    → stay self ms d s ≡ some (state, s')
    → s'.object ≡ (d.others s).object
unfolding stay
stay-object self ms d s h = come_back-object self d s _ h

-- A stay ends as the thread's `wait` does.
pub stay-wait :
    {A : Type 0} (self ms : ℕ) (d : During A) (s : Shared A) {state : State} {m : Monitor.Monitor}
    → wait self d.clock ms d.wakeups (Monitor.acquire (s.monitors self)) ≡ some (state, m)
    → (s' : Shared A) × (stay self ms d s ≡ some (state, s')) × (s'.object ≡ (d.others s).object)
unfolding stay
stay-wait self ms d s h = (_, ap (come_back self d s) h, refl)
