-- ===== src/Mutex/System/Exclusion.antt =====
-- The invariant of the system of `Mutex.System`, in which no thread is interrupted.
use zthread.Base.{
  ℕ, ◌≡◌, refl, inl, inr, true, false, none, List, [], ◌∷◌, arith, Option-cases, is_empty,
}
use zthread.Mutex.{owned_by}
use zthread.Mutex.System.{
  System, Pc, Step, Reach, here, next, start, takes, queues, blocks, passes, wakes, reacquires,
  resumes, releases, retries, Calm,
}
use zthread.Mutex.System.Listed.{listed}
use zthread.Mutex.System.Steps.{Inv, has_token, is_queued}
use zthread.Mutex.System.Acquiring.{
  same, takes-Inv, queues-Inv, blocks-Inv, not_pending, wakes-Inv, reacquires-Inv, resumes-Inv,
}
use zthread.Mutex.System.Releasing.{one_token, releases-Inv, retries-Inv}

start-Inv : Inv start
start-Inv = record {
  holder = none;
  locals = λ i. record {
    queues = refl;
    owns = refl;
    holds = refl;
    quiet = refl;
    masked = refl;
    unsignaled = refl;
    locks = refl;
    returns = refl;
    retries = refl;
  };
  distinct = tt;
  awake = refl;
}

Step-Inv : {r s : System} (st : Step r s) → Calm st → Inv r → Inv s
Step-Inv {r} (takes t p own h) c v = takes-Inv t r p h v
Step-Inv {r} (queues t p own h) c v = queues-Inv t r p h v
Step-Inv {r} (blocks t p h) c v = blocks-Inv t r p v
Step-Inv {r} (passes t p h) c v = let n = not_pending t r v p in absurd (cc)
Step-Inv {r} (wakes t p) c v = wakes-Inv t r p c v
Step-Inv {r} (reacquires t state p h) c v = reacquires-Inv t state r p v
Step-Inv {r} (resumes t state p) c v = resumes-Inv t state r p v
Step-Inv {r} (releases t done sh p own h) c v = releases-Inv t r done sh p h v
Step-Inv {r} (retries t done sh p h) c v = retries-Inv t r done sh p h v

Reach-Inv : {s : System} → Reach s → Inv s
Reach-Inv here = start-Inv
Reach-Inv (next r st c) = Step-Inv st c (Reach-Inv r)

-- Where no thread is interrupted, none acquires with a timeout, no wait on a monitor's condition comes
-- back with nothing pending, and the threads' monitors are used for this mutex alone, two threads never
-- own the mutex at once, whatever number of threads acquire and release it and however their steps
-- interleave; and the owner that the mutex names is the thread that owns it.
pub mutual_exclusion :
    {s : System}
    → Reach s
    → (t j : ℕ) → s.pc t ≡ Pc.owning
    → s.pc j ≡ Pc.owning
    → (j ≡ t) × (owned_by t s.mutex ≡ true)
mutual_exclusion {s} r t j p q =
    let v = Reach-Inv r in
    let l = v.locals t in (one_token s v t j (ground arith) (ground arith), ground arith)

listed_nowhere : (t : ℕ) (ws : List ℕ) → is_empty ws ≡ true → listed t ws ≡ false
listed_nowhere t [] h = refl
listed_nowhere t (w ∷ ws) h = cc

-- Where no thread is interrupted, none acquires with a timeout, no wait on a monitor's condition comes
-- back with nothing pending, and the threads' monitors are used for this mutex alone, no wakeup is
-- lost: whenever a thread is in `acquire` behind others, some thread owns the mutex, is in `release`,
-- or has been signaled to take it.
pub no_lost_wakeup :
    {s : System}
    → Reach s
    → (t : ℕ) → is_queued (s.pc t) ≡ true
    → (j : ℕ) × (has_token (s.pc j) (s.monitors j) ≡ true)
no_lost_wakeup {s} r t q = elim (Option-cases (Reach-Inv r).holder) [
  | inl e ↦
      let l = (Reach-Inv r).locals t in
      let a = (Reach-Inv r).awake in absurd (ground (arith, listed_nowhere t s.mutex.waiters))
  | inr (j, e) ↦ let l = (Reach-Inv r).locals j in (j, ground (arith, same j))
]
