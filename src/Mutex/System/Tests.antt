-- ===== src/Mutex/System/Tests.antt =====
-- src/MutexImpl.h: tests of the system of threads.
use zthread.Base.{ℕ, ◌≡◌, refl, true}
use zthread.Mutex.{owned_by}
use zthread.Mutex.System.{System, Reach, here, next, takes, queues, start, taken, queued}
use zthread.Mutex.System.Steps.{has_token}
use zthread.Mutex.System.Exclusion.{mutual_exclusion, no_lost_wakeup}

-- Thread 1 has taken the mutex, and thread 2 is on its way to wait.
abbrev two_threads : System
two_threads = queued 2 (taken 1 start)

taken-Reach : Reach (taken 1 start)
taken-Reach = next here (takes 1 refl refl refl) tt

mutual_exclusion_example : ◌≡◌ {A = ℕ} 1 1 × (owned_by 1 (taken 1 start).mutex ≡ true)
mutual_exclusion_example = mutual_exclusion taken-Reach 1 1 refl refl

no_lost_wakeup_example : (j : ℕ) × (has_token (two_threads.pc j) (two_threads.monitors j) ≡ true)
no_lost_wakeup_example = no_lost_wakeup (next taken-Reach (queues 2 refl refl refl) tt) 2 refl
