-- ===== src/Mutex/System.antt =====
-- src/MutexImpl.h: any number of threads on one mutex, interleaved in any order. A step is one stay of
-- a thread in the mutex's own lock, or one stay in its monitor's lock or in the lock of that monitor's
-- state; `push_back` is the insertion of fifo_list. A round of `release` is one step: what threads that
-- are listed do with their own monitors while it goes over the list comes before or after it. The
-- monitors are used for this mutex alone.
pub mod Listed
pub mod Steps
pub mod Acquiring
pub mod Releasing
pub mod Exclusion
pub mod Broken
pub mod Tests
use zthread.Base.{
  ℕ, ◌≡◌, Bool, true, false, Option, none, some, List, [], ◌∷◌, ◌++◌, ◌==◌, if◌then◌else◌,
}
use zthread.Exceptions.{Result, ok, throw}
use zthread.Status.{State, anything}
use zthread.Status
use zthread.Monitor
use zthread.Monitor.{Monitor, acquire, release, interrupt}
use zthread.Monitor.Wait.{wait_over, ok as success}
use zthread.Monitor.Inversion.{blocked, consumed}
use zthread.Waiters.{Monitors, update}
use zthread.Waiters.Stay.{Shared}
use zthread.Mutex.{
  Mutex, owned_by, available, take_lock, enter, depart, finish_acquire, release_pass,
}
use zthread.Mutex

-- Where a thread stands: before `acquire`; listed, with its monitor's lock, before `wait`; blocked in
-- `wait`; at the end of `wait`, without its monitor's lock; back from it, with that lock; after
-- `acquire`; and in `release`, backed off.
pub data Pc : Type 0 where
  outside entering waiting owning releasing : Pc
  reacquiring returned : State → Pc

pub record System : Type 0 where
  pub mutex : Mutex
  pub monitors : Monitors
  pub pc : ℕ → Pc

abbrev pub start : System
start = record { mutex = Mutex.init; monitors = λ _. Monitor.init; pc = λ _. Pc.outside }

abbrev pub move : (ℕ → Pc) → ℕ → Pc → ℕ → Pc
move pc t p i = if t == i then p else pc i

abbrev pub push_back : ℕ → List ℕ → List ℕ
push_back t ts = ts ++ t ∷ []

-- The state at each end of a step of thread `t`.
abbrev pub taken : ℕ → System → System
taken t s = record s { mutex = take_lock t s.mutex; pc = move s.pc t Pc.owning }

abbrev pub queued : ℕ → System → System
queued t s = record {
  mutex = enter push_back t s.mutex;
  monitors = update s.monitors t (acquire (s.monitors t));
  pc = move s.pc t Pc.entering;
}

abbrev pub asleep : ℕ → System → System
asleep t s = record s {
  monitors = update s.monitors t (blocked t (s.monitors t));
  pc = move s.pc t Pc.waiting;
}

-- Back from `wait` with the given state and monitor.
abbrev pub back : ℕ → State × Monitor → System → System
back t (state, m) s = record s {
  monitors = update s.monitors t m;
  pc = move s.pc t (Pc.returned state);
}

-- The end of the condition's wait, before `_lock.acquire()`, and that.
abbrev pub woken : ℕ → State × Monitor → System → System
woken t (state, m) s = record s {
  monitors = update s.monitors t m;
  pc = move s.pc t (Pc.reacquiring state);
}

abbrev pub relocked : ℕ → State → System → System
relocked t state s = back t (state, acquire (s.monitors t)) s

abbrev pub after_wait : Result (Unit {0}) → Pc
after_wait (ok _) = Pc.owning
after_wait (throw e) = Pc.outside

abbrev pub resumed : ℕ → State → System → System
resumed t state s =
    let (r, mutex) = finish_acquire t state (depart t s.mutex) in
    record {
      mutex = mutex;
      monitors = update s.monitors t (release (s.monitors t));
      pc = move s.pc t (after_wait r);
    }

-- After a round of `release`: whether it returns, with the mutex and the monitors.
abbrev pub passed : ℕ → Bool → Shared Mutex → System → System
passed t done sh s = record {
  mutex = sh.object;
  monitors = sh.monitors;
  pc = move s.pc t (if done then Pc.outside else Pc.releasing);
}

abbrev pub shared : Mutex → System → Shared Mutex
shared o s = record { object = o; monitors = s.monitors }

abbrev pub give_up : Mutex → Mutex
give_up o = record o { owner = none }

pub data Step (s : System) : System → Type 0 where
  takes :
      (t : ℕ)
      → s.pc t ≡ Pc.outside
      → owned_by t s.mutex ≡ false
      → available s.mutex ≡ true
      → Step s (taken t s)
  queues :
      (t : ℕ)
      → s.pc t ≡ Pc.outside
      → owned_by t s.mutex ≡ false
      → available s.mutex ≡ false
      → Step s (queued t s)
  blocks :
      (t : ℕ)
      → s.pc t ≡ Pc.entering
      → Status.pending anything (s.monitors t).status ≡ false
      → Step s (asleep t s)
  passes :
      (t : ℕ)
      → s.pc t ≡ Pc.entering
      → Status.pending anything (s.monitors t).status ≡ true
      → Step s (back t ((Status.next (s.monitors t).status).0, consumed t (s.monitors t)) s)
  wakes : (t : ℕ) → s.pc t ≡ Pc.waiting → Step s (woken t (wait_over success (s.monitors t)) s)
  reacquires :
      (t : ℕ) (state : State)
      → s.pc t ≡ Pc.reacquiring state
      → (s.monitors t).locked ≡ false
      → Step s (relocked t state s)
  resumes : (t : ℕ) (state : State) → s.pc t ≡ Pc.returned state → Step s (resumed t state s)
  releases :
      (t : ℕ) (done : Bool) (sh : Shared Mutex)
      → s.pc t ≡ Pc.owning
      → owned_by t s.mutex ≡ true
      → release_pass [] (shared (give_up s.mutex) s) ≡ some (done, sh)
      → Step s (passed t done sh s)
  retries :
      (t : ℕ) (done : Bool) (sh : Shared Mutex)
      → s.pc t ≡ Pc.releasing
      → release_pass [] (shared s.mutex s) ≡ some (done, sh)
      → Step s (passed t done sh s)

-- A wait on the condition may come back with nothing pending; a calm step is not such a return.
abbrev pub Calm : {s r : System} → Step s r → Type 0
Calm {s} (wakes t p) = Status.pending anything (s.monitors t).status ≡ true
Calm _ = Unit {0}

-- The states that calm steps reach.
pub data Reach : System → Type 0 where
  here : Reach start
  next : {r s : System} → Reach r → (st : Step r s) → Calm st → Reach s

-- Any steps, with interruptions of threads by others.
abbrev pub interrupted : ℕ → ℕ → System → System
interrupted caller t s = record s {
  monitors = update s.monitors t (interrupt caller (s.monitors t)).1;
}

pub data Disturbed : System → Type 0 where
  undisturbed : Disturbed start
  then : {r s : System} → Disturbed r → Step r s → Disturbed s
  interrupts : {r : System} (caller t : ℕ) → Disturbed r → Disturbed (interrupted caller t r)
