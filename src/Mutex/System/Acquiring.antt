-- ===== src/Mutex/System/Acquiring.antt =====
-- The steps of `MutexImpl::acquire` keep the invariant of `Mutex.System`.
use zthread.Base.{
  ℕ, ◌≡◌, refl, inl, inr, true, false, none, some, List, [], ◌∷◌, arith, ◌==◌, Option-cases,
  is_empty,
}
use zthread.Status.{State, anything}
use zthread.Status
use zthread.Monitor.{acquire, release}
use zthread.Monitor.Wait.{wait_over, ok as success}
use zthread.Mutex.{available, finish_acquire}
use zthread.Mutex.System.{System, Pc, taken, queued, asleep, woken, relocked, resumed, push_back}
use zthread.Mutex.System.Listed.{
  listed-append, listed-remove, Distinct-append, Distinct-remove, split,
}
use zthread.Mutex.System.Steps.{LocalAt, Inv, is_none}

pub same : (t : ℕ) → (t == t) ≡ true
same t = ground arith

free_holder : (s : System) (v : Inv s) → available s.mutex ≡ true → v.holder ≡ none
free_holder s v h = elim (Option-cases v.holder) [
  | inl e ↦ e
  | inr (j, e) ↦ let l = v.locals j in ground (arith, same j)
]

pub takes-Inv :
    (t : ℕ) (s : System) → s.pc t ≡ Pc.outside → available s.mutex ≡ true → Inv s → Inv (taken t s)
takes-Inv t s p h v = record {
  holder = some t;
  locals =
      split t (LocalAt (taken t s) (some t)) (let l = v.locals t in ground (arith, same t))
        (λ i n. let l = v.locals i in let e = free_holder s v h in ground arith);
  distinct = v.distinct;
  awake = refl;
}

empty-append : (t : ℕ) (ws : List ℕ) → is_empty (push_back t ws) ≡ false
empty-append t [] = refl
empty-append t (w ∷ ws) = refl

held_somewhere : (s : System) (v : Inv s) → available s.mutex ≡ false → is_none v.holder ≡ false
held_somewhere s v h = elim (Option-cases s.mutex.owner) [
  | inl e ↦ let a = v.awake in ground arith
  | inr (j, e) ↦ let l = v.locals j in ground (arith, same j)
]

-- A thread that finds the mutex taken, or somebody listed.
pub queues-Inv :
    (t : ℕ) (s : System)
    → s.pc t ≡ Pc.outside
    → available s.mutex ≡ false
    → Inv s
    → Inv (queued t s)
unfolding acquire
queues-Inv t s p h v = record {
  holder = v.holder;
  locals =
      split t (LocalAt (queued t s) v.holder)
        (let l = v.locals t in ground (arith, same t, empty-append t ws, listed-append t t ws))
        (λ i n. let l = v.locals i in ground (arith, empty-append t ws, listed-append i t ws));
  distinct = Distinct-append t ws v.distinct (let l = v.locals t in ground arith);
  awake = rw (held_somewhere s v h) refl;
}
  where
    ws : List ℕ
    ws = s.mutex.waiters

pub blocks-Inv : (t : ℕ) (s : System) → s.pc t ≡ Pc.entering → Inv s → Inv (asleep t s)
blocks-Inv t s p v = record {
  holder = v.holder;
  locals =
      split t (LocalAt (asleep t s) v.holder) (let l = v.locals t in ground (arith, same t))
        (λ i n. let l = v.locals i in ground arith);
  distinct = v.distinct;
  awake = v.awake;
}

-- A thread that has its monitor's lock has no signal.
pub not_pending :
    (t : ℕ) (s : System)
    → Inv s
    → s.pc t ≡ Pc.entering
    → Status.pending anything (s.monitors t).status ≡ false
unfolding Status.pending
not_pending t s v p = let l = v.locals t in ground arith

pub wakes-Inv :
    (t : ℕ) (s : System)
    → s.pc t ≡ Pc.waiting
    → Status.pending anything (s.monitors t).status ≡ true
    → Inv s
    → Inv (woken t (wait_over success (s.monitors t)) s)
unfolding Status.pending wait_over Status.next
wakes-Inv t s p h v = record {
  holder = v.holder;
  locals =
      split t (LocalAt (woken t (wait_over success (s.monitors t)) s) v.holder)
        (let l = v.locals t in ground (arith, same t)) (λ i n. let l = v.locals i in ground arith);
  distinct = v.distinct;
  awake = v.awake;
}

pub reacquires-Inv :
    (t : ℕ) (state : State) (s : System)
    → s.pc t ≡ Pc.reacquiring state
    → Inv s
    → Inv (relocked t state s)
unfolding acquire
reacquires-Inv t State.signaled s p v = record {
  holder = v.holder;
  locals =
      split t (LocalAt (relocked t State.signaled s) v.holder)
        (let l = v.locals t in ground (arith, same t)) (λ i n. let l = v.locals i in ground arith);
  distinct = v.distinct;
  awake = v.awake;
}
reacquires-Inv t State.interrupted s p v = let l = v.locals t in ground arith
reacquires-Inv t State.timedout s p v = let l = v.locals t in ground arith
reacquires-Inv t State.invalid s p v = let l = v.locals t in ground arith

pub resumes-Inv :
    (t : ℕ) (state : State) (s : System)
    → s.pc t ≡ Pc.returned state
    → Inv s
    → Inv (resumed t state s)
unfolding finish_acquire release
resumes-Inv t State.signaled s p v = record {
  holder = v.holder;
  locals =
      split t (LocalAt (resumed t State.signaled s) v.holder)
        (let l = v.locals t in ground (arith, same t, listed-remove t t s.mutex.waiters v.distinct))
        (λ i n.
          let l = v.locals i in
          let k = v.locals t in
          ground (arith, same t, listed-remove i t s.mutex.waiters v.distinct));
  distinct = Distinct-remove t s.mutex.waiters v.distinct;
  awake = let l = v.locals t in ground arith;
}
resumes-Inv t State.interrupted s p v = let l = v.locals t in ground arith
resumes-Inv t State.timedout s p v = let l = v.locals t in ground arith
resumes-Inv t State.invalid s p v = let l = v.locals t in ground arith
