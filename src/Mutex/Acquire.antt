-- ===== src/Mutex/Acquire.antt =====
-- `MutexImpl::acquire` and `tryAcquire` of src/MutexImpl.h.
use zthread.Base.{
  ℕ, ◌≡◌, refl, sym, ap, ap₂, ◌∙◌, inl, inr, Bool, true, false, ◌&&◌, Option, none, some, List, ◌∷◌,
  ◌++◌, arith, if◌then◌else◌, Bool-cases,
}
use zthread.Exceptions.{Exception, Result, ok, throw}
use zthread.Status.{State, anything}
use zthread.Status
use zthread.Status.Order.{next-signaled}
use zthread.Monitor.{Monitor, Call, notifies, perform_all}
use zthread.Monitor
use zthread.Monitor.Wait.{Wakeup, Errno}
use zthread.Monitor.Inversion.{wait-pending, blocked}
use zthread.Monitor.Wakeups.{wait_notified, pending-signaled}
use zthread.Waiters.{remove}
use zthread.Waiters.Stay.{Shared, During, on_object, stay-object, stay-wait}
use zthread.Mutex.{
  Mutex, owned_by, available, take_lock, depart, enter, resume, finish_acquire, finish_try, acquire,
  try_acquire,
}

-- What one stay leaves of the mutex, whichever way it ended: the thread is off the list, and is the
-- owner if it got the lock; otherwise the owner is as the other threads left it.
abbrev pub left : ℕ → Bool → Mutex → Mutex
left self taken o = record o {
  waiters = remove self o.waiters;
  owner = if taken then some self else o.owner;
}

abbrev pub is_ok {ℓ} : {A : Type ℓ} → Result A → Bool
is_ok (ok a) = true
is_ok (throw e) = false

-- What a thread finds when its stay is over.
abbrev pub joined : (ℕ → List ℕ → List ℕ) → ℕ → During Mutex → Shared Mutex → Shared Mutex
joined insert self d s = d.others (on_object (enter insert self) s)

module _ {A : Type 0} (finish : State → Mutex → Result A × Mutex) (self : ℕ) where
  resume-object :
      (x : Option (State × Shared Mutex)) {r : Result A} {s' : Shared Mutex}
      → resume finish self x ≡ some (r, s')
      → (state : State) × (s : Shared Mutex) × (x ≡ some (state, s))
        × (r ≡ (finish state (depart self s.object)).0)
        × (s'.object ≡ (finish state (depart self s.object)).1)
  resume-object none h = cc
  resume-object (some (state, s)) h = (state, s, refl, ground arith, ground arith)

finish_acquire-left :
    (self : ℕ) (state : State) (o : Mutex)
    → (finish_acquire self state (depart self o)).1
      ≡ left self (is_ok (finish_acquire self state (depart self o)).0) o
unfolding finish_acquire
finish_acquire-left self state o = ground arith

-- A thread that does not own the mutex and finds it taken, or finds waiters, never gets in at once:
-- it joins the list where `insert` puts it. If it comes back, it is off the list, and it either owns
-- the mutex or brings an exception and leaves the owner to the other threads.
pub acquire_queues :
    (insert : ℕ → List ℕ → List ℕ) (self : ℕ) (d : During Mutex) (s : Shared Mutex)
    {r : Result (Unit {0})} {s' : Shared Mutex}
    → owned_by self s.object ≡ false
    → available s.object ≡ false
    → acquire insert self d s ≡ some (r, s')
    → s'.object ≡ left self (is_ok r) (joined insert self d s).object
unfolding acquire
acquire_queues insert self d s own h e =
    let (state, s1, stayed, result, object) =
      resume-object (finish_acquire self) self _ (rw (own, h) at e) in
    object
    ∙ finish_acquire-left self state s1.object
    ∙ ap₂ (left self) (ap is_ok (sym result)) (stay-object self 0 d _ stayed)

resumed :
    (self : ℕ) (x : Option (State × Shared Mutex)) (s : Shared Mutex)
    → x ≡ some (State.signaled, s)
    → (s' : Shared Mutex) × (resume (finish_acquire self) self x ≡ some (ok tt, s'))
      × (s'.object ≡ left self true s.object)
unfolding finish_acquire
resumed self x s h = (_, ap (resume (finish_acquire self) self) h, refl)

-- If a release notifies a thread that blocks in `acquire`, and no interruption of interest is pending
-- then, the thread comes back as the owner, off the list, whatever else is done to its monitor before
-- and after.
pub acquire_handed :
    (insert : ℕ → List ℕ → List ℕ) (self : ℕ) (d : During Mutex) (s : Shared Mutex)
    (before after : List Call) (e : Errno) (rest : List Wakeup)
    → owned_by self s.object ≡ false
    → available s.object ≡ false
    → (s.monitors self).status.mask.signaled ≡ true
    → Status.pending anything (s.monitors self).status ≡ false
    → d.wakeups none ≡ record { calls = before ++ notifies ∷ after; errno = e } ∷ rest
    → (let w = (perform_all before (blocked self (s.monitors self))).status in
        w.pending.interrupted && w.mask.interrupted ≡ false)
    → (s' : Shared Mutex) × (acquire insert self d s ≡ some (ok tt, s'))
      × (s'.object ≡ left self true (joined insert self d s).object)
unfolding acquire Monitor.acquire
acquire_handed insert self d s before after e rest own h sig p q i =
    let (m, w, _) =
      wait_notified self 0 d.clock d.wakeups (Monitor.acquire (s.monitors self)) before after e rest
        sig p q i in
    let (s1, stayed, object) = stay-wait self 0 d _ w in
    let (s2, result, object') = resumed self _ s1 stayed in
    (s2, rw (own, h) result, object' ∙ ap (left self true) object)

-- A signal that is left over breaks the exclusion: a thread whose monitor already holds one when it
-- finds the mutex taken by another comes back as the owner, whatever the other threads do and
-- whether or not the owner released.
pub lock_from_stale_signal :
    (insert : ℕ → List ℕ → List ℕ) (self : ℕ) (d : During Mutex) (s : Shared Mutex)
    → owned_by self s.object ≡ false
    → available s.object ≡ false
    → (s.monitors self).status.mask.signaled ≡ true
    → (s.monitors self).status.pending.signaled ≡ true
    → (s' : Shared Mutex) × (acquire insert self d s ≡ some (ok tt, s'))
      × (s'.object ≡ left self true (joined insert self d s).object)
unfolding acquire Monitor.acquire
lock_from_stale_signal insert self d s own h sig p =
    let (s1, stayed, object) = stay-wait self 0 d _ (
      wait-pending self 0 d.clock d.wakeups (Monitor.acquire (s.monitors self))
        (pending-signaled (s.monitors self).status sig p)
        (next-signaled (s.monitors self).status sig p)) in
    let (s2, result, object') = resumed self _ s1 stayed in
    (s2, rw (own, h) result, object' ∙ ap (left self true) object)

abbrev pub Undone : (ℕ → List ℕ → List ℕ) → ℕ → List ℕ → Type 0
Undone insert self ws = remove self (insert self ws) ≡ ws

-- With no timeout `tryAcquire` never blocks: it refuses its owner, takes a mutex that is free and
-- unawaited, and otherwise answers false and leaves everything as it was, if erasing the thread undoes
-- its insertion into the list.
pub try_lock_at_once :
    (insert : ℕ → List ℕ → List ℕ) (self : ℕ) (d : During Mutex) (s : Shared Mutex)
    → Undone insert self s.object.waiters
    → try_acquire insert self 0 d s
      ≡ some (
          if owned_by self s.object
          then (throw Exception.deadlock, s)
          else if available s.object
          then (ok true, on_object (take_lock self) s)
          else (ok false, s))
unfolding try_acquire finish_try
try_lock_at_once insert self d s u = elim (Bool-cases (owned_by self s.object)) [
  | inl o ↦ rw o
  | inr o ↦ elim (Bool-cases (available s.object)) [
    | inl a ↦ rw (o, a)
    | inr a ↦
        rw (o, a)
          (ap (λ ws. some (ok false, record s { object = record (s.object) { waiters = ws } })) u)
  ]
]
