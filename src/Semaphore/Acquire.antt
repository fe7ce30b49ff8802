-- ===== src/Semaphore/Acquire.antt =====
-- `SemaphoreImpl::acquire` and `tryAcquire` of src/SemaphoreImpl.h.
use zthread.Base.{
  ℕ, ◌≡◌, refl, sym, ap, ap₂, ◌∙◌, inl, inr, Bool, true, false, ◌&&◌, Option, none, some, List, [],
  ◌∷◌, ◌++◌, arith, if◌then◌else◌, Bool-cases,
}
use zthread.Base.Int.{pred_ℤ, pred-suc}
use zthread.Exceptions.{Result, ok, throw}
use zthread.Status.{State, anything}
use zthread.Status
use zthread.Monitor.{Monitor, Call, notifies, perform_all}
use zthread.Monitor
use zthread.Monitor.Wait.{Wakeup, Errno}
use zthread.Monitor.Inversion.{wait-pending, blocked}
use zthread.Monitor.Wakeups.{wait_notified, pending-signaled}
use zthread.Status.Order.{next-signaled}
use zthread.Waiters.{remove, NotListed, remove-append_self}
use zthread.Waiters.Stay.{Shared, During, on_object, stay-object, stay-wait}
use zthread.Semaphore.{
  Semaphore, available, take_permit, depart, enter, resume, finish_acquire, finish_try, acquire,
  try_acquire,
}

-- What one stay leaves of the semaphore, whichever way it ended: the thread is off the list and off
-- the entry count, and the count is what other threads made of it, less one for a permit taken.
abbrev pub left : ℕ → Bool → Semaphore → Semaphore
left self taken o = record o {
  waiters = remove self o.waiters;
  entry_count = pred_ℤ o.entry_count;
  count = if taken then pred_ℤ o.count else o.count;
}

abbrev pub is_ok {ℓ} : {A : Type ℓ} → Result A → Bool
is_ok (ok a) = true
is_ok (throw e) = false

-- What a thread finds when its stay is over.
abbrev pub joined : ℕ → (List ℕ → List ℕ) → During Semaphore → Shared Semaphore → Shared Semaphore
joined self place d s = d.others (on_object (enter (place s.object.waiters)) s)

module _ {A : Type 0} (finish : State → Semaphore → Result A × Semaphore) (self : ℕ) where
  resume-object :
      (x : Option (State × Shared Semaphore)) {r : Result A} {s' : Shared Semaphore}
      → resume finish self x ≡ some (r, s')
      → (state : State) × (s : Shared Semaphore) × (x ≡ some (state, s))
        × (r ≡ (finish state (depart self s.object)).0)
        × (s'.object ≡ (finish state (depart self s.object)).1)
  resume-object none h = cc
  resume-object (some (state, s)) h = (state, s, refl, ground arith, ground arith)

pub finish_acquire-left :
    (self : ℕ) (state : State) (o : Semaphore)
    → (finish_acquire state (depart self o)).1
      ≡ left self (is_ok (finish_acquire state (depart self o)).0) o
unfolding finish_acquire
finish_acquire-left self state o = ground arith

-- A thread that cannot take a permit at once joins the list where `insert` puts it. If it comes
-- back, then with a permit, and the count is one lower than what the other threads made of it, or
-- with an exception, and the count is theirs; either way it has left the list and the entry count.
pub acquire_accounts :
    (insert : ℕ → List ℕ → List ℕ) (self : ℕ) (d : During Semaphore) (s : Shared Semaphore)
    {r : Result (Unit {0})} {s' : Shared Semaphore}
    → available s.object ≡ false
    → acquire insert self d s ≡ some (r, s')
    → s'.object ≡ left self (is_ok r) (joined self (insert self) d s).object
unfolding acquire
acquire_accounts insert self d s h e =
    let (state, s1, stayed, result, object) = resume-object finish_acquire self _ (rw h at e) in
    object
    ∙ finish_acquire-left self state s1.object
    ∙ ap₂ (left self) (ap is_ok (sym result)) (stay-object self 0 d _ stayed)

resumed :
    (self : ℕ) (x : Option (State × Shared Semaphore)) (s : Shared Semaphore)
    → x ≡ some (State.signaled, s)
    → (s' : Shared Semaphore) × (resume finish_acquire self x ≡ some (ok tt, s'))
      × (s'.object ≡ left self true s.object)
unfolding finish_acquire
resumed self x s h = (_, ap (resume finish_acquire self) h, refl)

-- If a release notifies a thread that blocks in `acquire`, and no interruption of interest is pending
-- then, the thread comes back with a permit, whatever else is done to its monitor before and after.
-- It has left the list and the entry count, and the count is one lower than the others made it.
pub acquire_notified :
    (insert : ℕ → List ℕ → List ℕ) (self : ℕ) (d : During Semaphore) (s : Shared Semaphore)
    (before after : List Call) (e : Errno) (rest : List Wakeup)
    → available s.object ≡ false
    → (s.monitors self).status.mask.signaled ≡ true
    → Status.pending anything (s.monitors self).status ≡ false
    → d.wakeups none ≡ record { calls = before ++ notifies ∷ after; errno = e } ∷ rest
    → (let w = (perform_all before (blocked self (s.monitors self))).status in
        w.pending.interrupted && w.mask.interrupted ≡ false)
    → (s' : Shared Semaphore) × (acquire insert self d s ≡ some (ok tt, s'))
      × (s'.object ≡ left self true (joined self (insert self) d s).object)
unfolding acquire Monitor.acquire
acquire_notified insert self d s before after e rest h sig p q i =
    let (m, w, _) =
      wait_notified self 0 d.clock d.wakeups (Monitor.acquire (s.monitors self)) before after e rest
        sig p q i in
    let (s1, stayed, object) = stay-wait self 0 d _ w in
    let (s2, result, object') = resumed self _ s1 stayed in
    (s2, rw h result, object' ∙ ap (left self true) object)

-- A signal that is left over counts as a permit: a thread whose monitor already holds one when it has
-- to wait comes back with a permit, whatever the other threads do and whether or not one of them
-- released, and the count is one lower than they made it.
pub permit_from_stale_signal :
    (insert : ℕ → List ℕ → List ℕ) (self : ℕ) (d : During Semaphore) (s : Shared Semaphore)
    → available s.object ≡ false
    → (s.monitors self).status.mask.signaled ≡ true
    → (s.monitors self).status.pending.signaled ≡ true
    → (s' : Shared Semaphore) × (acquire insert self d s ≡ some (ok tt, s'))
      × (s'.object ≡ left self true (joined self (insert self) d s).object)
unfolding acquire Monitor.acquire
permit_from_stale_signal insert self d s h sig p =
    let (s1, stayed, object) = stay-wait self 0 d _ (
      wait-pending self 0 d.clock d.wakeups (Monitor.acquire (s.monitors self))
        (pending-signaled (s.monitors self).status sig p)
        (next-signaled (s.monitors self).status sig p)) in
    let (s2, result, object') = resumed self _ s1 stayed in
    (s2, rw h result, object' ∙ ap (left self true) object)

try_now :
    (self : ℕ) (o : Semaphore)
    → NotListed self o.waiters
    → depart self (enter (o.waiters ++ self ∷ []) o) ≡ o
try_now self o h = λ i. record o {
  waiters = remove-append_self self o.waiters h i;
  entry_count = pred-suc o.entry_count i;
}

-- With no timeout `tryAcquire` never blocks: it takes a permit and answers true if one is there and
-- nobody waits, and otherwise answers false and leaves everything as it was, if the thread is not
-- already listed.
pub try_acquire_at_once :
    (self : ℕ) (d : During Semaphore) (s : Shared Semaphore)
    → NotListed self s.object.waiters
    → try_acquire self 0 d s
      ≡ some (if available s.object then (ok true, on_object take_permit s) else (ok false, s))
unfolding try_acquire finish_try
try_acquire_at_once self d s h = elim (Bool-cases (available s.object)) [
  | inl a ↦ rw a
  | inr a ↦
      rw a
        (ap (λ (o : Semaphore). some (ok false, record s { object = o })) (try_now self s.object h))
]
