-- ===== src/Semaphore/System.antt =====
-- src/SemaphoreImpl.h: any number of threads on one semaphore, interleaved in any order. A step is one
-- stay of a thread in the semaphore's own lock. What happens to the monitors is left open: a wait may
-- come back with any state, and a round of `release` may meet them in any state.
pub mod Permits
pub mod Bound
use zthread.Base.{ℕ, suc, ◌+◌, ◌≡◌, Bool, true, false, List, [], ◌∷◌, ◌++◌, if◌then◌else◌}
use zthread.Base.Int.{ℤ, suc_ℤ}
use zthread.Exceptions.{Result, ok, throw}
use zthread.Status.{State}
use zthread.Waiters.{Monitors}
use zthread.Semaphore.{
  Semaphore, available, take_permit, depart, enter, finish_acquire, finish_try, release_pass,
}
use zthread.Semaphore
use zthread.Semaphore.Acquire.{is_ok}
use zthread.Semaphore.Release.{is_full}

-- With the threads between joining the list and leaving it, and how many permits were taken and
-- released.
pub record System : Type 0 where
  pub semaphore : Semaphore
  pub staying : List ℕ
  pub acquired : ℕ
  pub released : ℕ

abbrev pub start : ℤ → ℤ → Bool → System
start count max_count checked = record {
  semaphore = Semaphore.init count max_count checked;
  staying = [];
  acquired = 0;
  released = 0;
}

-- `tryAcquire` answered true.
abbrev pub is_granted : Result Bool → Bool
is_granted (ok b) = b
is_granted (throw e) = false

abbrev pub taken : System → System
taken s = record s { semaphore = take_permit s.semaphore; acquired = s.acquired + 1 }

abbrev pub entered : ℕ → List ℕ → System → System
entered t ws s = record s { semaphore = enter ws s.semaphore; staying = t ∷ s.staying }

-- Back from the stay, with the semaphore, whether a permit was taken, and those who still stay.
abbrev pub returned : Semaphore → Bool → List ℕ → System → System
returned o took others s = record s {
  semaphore = o;
  staying = others;
  acquired = if took then s.acquired + 1 else s.acquired;
}

abbrev pub after_acquire : ℕ → State → List ℕ → System → System
after_acquire t state others s =
    let (r, o) = finish_acquire state (depart t s.semaphore) in returned o (is_ok r) others s

abbrev pub after_try : ℕ → State → List ℕ → System → System
after_try t state others s =
    let (r, o) = finish_try state (depart t s.semaphore) in returned o (is_granted r) others s

abbrev pub raised : System → System
raised s = record s {
  semaphore = record (s.semaphore) { count = suc_ℤ s.semaphore.count };
  released = s.released + 1;
}

abbrev pub woken : Monitors → System → System
woken ms s = record s {
  semaphore = (release_pass (record { object = s.semaphore; monitors = ms })).1.object;
}

pub data Step (s : System) : System → Type 0 where
  takes : available s.semaphore ≡ true → Step s (taken s)
  enters :
      (t : ℕ) (insert : ℕ → List ℕ → List ℕ)
      → available s.semaphore ≡ false
      → Step s (entered t (insert t s.semaphore.waiters) s)
  acquires :
      (t : ℕ) (state : State) (before after : List ℕ)
      → s.staying ≡ before ++ t ∷ after
      → Step s (after_acquire t state (before ++ after) s)
  tries :
      (t : ℕ) (state : State) (before after : List ℕ)
      → s.staying ≡ before ++ t ∷ after
      → Step s (after_try t state (before ++ after) s)
  releases : is_full s.semaphore ≡ false → Step s (raised s)
  wakes : (ms : Monitors) → Step s (woken ms s)

pub data Reach (r : System) : System → Type 0 where
  here : Reach r r
  next : {s t : System} → Reach r s → Step s t → Reach r t
