-- ===== src/Condition/Relock.antt =====
-- `ConditionImpl::wait` of src/ConditionImpl.h.
use zthread.Base.{
  ℕ, ◌≡◌, refl, ap, ◌∙◌, ◌&&◌, true, false, Option, none, some, List, ◌∷◌, ◌++◌, arith,
}
use zthread.Exceptions.{Result, ok}
use zthread.Status.{State, anything, only_signaled}
use zthread.Status
use zthread.Monitor.{Monitor, Call, notifies, perform_all, defer_interruption, end_deferral}
use zthread.Monitor
use zthread.Monitor.Wait.{Errno, Wakeup}
use zthread.Monitor.Inversion.{blocked}
use zthread.Monitor.Wakeups.{wait_notified}
use zthread.Waiters.{Monitors, update}
use zthread.Waiters.Stay.{Shared, During, on_object, stay, stay-wait}
use zthread.Condition.{
  Condition, Lockable, finish_wait, enter, depart, on_monitor, unless_thrown, leave, resume, wait,
}

mask_of_deferral :
    (self : ℕ) (m : Monitor) (ms : Monitors)
    → ((update ms self (defer_interruption m) self).status.mask ≡ only_signaled)
      × ((update ms self (end_deferral m) self).status.mask ≡ anything)
unfolding defer_interruption end_deferral
mask_of_deferral self m ms = ground arith

module _ {L : Type 0} where
  -- The state in which a thread joins the list, once the predicate lock is released.
  abbrev pub unlocked : Shared L → Shared (Condition L) → Shared (Condition L)
  unlocked p s = record {
    object = record (s.object) { predicate = p.object };
    monitors = p.monitors;
  }

  -- The state in which it asks for the predicate lock again.
  abbrev pub relocking : ℕ → Shared (Condition L) → Shared (Condition L)
  relocking self s = on_monitor self defer_interruption (on_object (depart self) s)

  -- What `leave` says of a call that came back.
  leave-returned :
      {A : Type 0} (q : Result A) (self : ℕ) (x : Option (Result (Unit {0}) × Shared (Condition L)))
      {r : Result A} {s' : Shared (Condition L)}
      → leave q self x ≡ some (r, s')
      → (locked : Result (Unit {0})) × (s2 : Shared (Condition L)) × (x ≡ some (locked, s2))
        × (r ≡ unless_thrown locked q)
        × (s' ≡ on_monitor self end_deferral s2)
  leave-returned q self none h = cc
  leave-returned q self (some (locked, s2)) h = (locked, s2, refl, cc, cc)

  resume-returned :
      {A : Type 0} (finish : State → Result A) (k : Lockable L) (self : ℕ)
      (x : Option (State × Shared (Condition L))) {r : Result A} {s' : Shared (Condition L)}
      → resume finish k self x ≡ some (r, s')
      → (state : State) × (s1 : Shared (Condition L)) × (locked : Result (Unit {0})) × (s2 : Shared
          (Condition L))
        × (x ≡ some (state, s1))
        × (k.acquire self (relocking self s1) ≡ some (locked, s2))
        × (r ≡ unless_thrown locked (finish state))
        × (s' ≡ on_monitor self end_deferral s2)
  resume-returned finish k self none h = cc
  resume-returned finish k self (some (state, s1)) h =
      let (locked, s2, a, b, c) = leave-returned (finish state) self _ h in
      (state, s1, locked, s2, refl, a, b, c)

  -- A `wait` that comes back, where the `release` of the predicate lock did not throw, joined the list,
  -- came back from its stay, left the list and called the predicate lock's `acquire`. While it asked for
  -- the lock only signals were of interest to its monitor, and at the end everything is again. It throws
  -- what that `acquire` threw, or else does as its monitor's state says.
  pub wait_relocks :
      (insert : ℕ → List ℕ → List ℕ) (k : Lockable L) (self : ℕ) (d : During (Condition L))
      (s : Shared (Condition L)) (p : Shared L) {r : Result (Unit {0})} {s' : Shared (Condition L)}
      → k.release self (record { object = s.object.predicate; monitors = s.monitors }) ≡ (ok tt, p)
      → wait insert k self d s ≡ some (r, s')
      → (state : State) × (s1 : Shared (Condition L)) × (locked : Result (Unit {0})) × (s2 : Shared
          (Condition L))
        × (stay self 0 d (on_object (enter insert self) (unlocked p s)) ≡ some (state, s1))
        × (k.acquire self (relocking self s1) ≡ some (locked, s2))
        × (((relocking self s1).monitors self).status.mask ≡ only_signaled)
        × (r ≡ unless_thrown locked (finish_wait state))
        × (s'.object ≡ s2.object)
        × ((s'.monitors self).status.mask ≡ anything)
  unfolding wait
  wait_relocks insert k self d s p e h =
      let (state, s1, got, s2, stayed, locked, result, after) =
        resume-returned finish_wait k self _ (rw e at h) in
      (
        state,
        s1,
        got,
        s2,
        stayed,
        locked,
        (mask_of_deferral self (s1.monitors self) s1.monitors).0,
        result,
        ap (λ x. x.object) after,
        ap (λ x. (x.monitors self).status.mask) after
            ∙ (mask_of_deferral self (s2.monitors self) s2.monitors).1,
      )

  -- If a `signal` or a `broadcast` notifies a thread that blocks in `wait`, and no interruption of
  -- interest is pending then, and it gets the predicate lock again, `wait` returns without an
  -- exception, whatever else is done to its monitor before and after.
  pub condition_notified :
      (insert : ℕ → List ℕ → List ℕ) (k : Lockable L) (self : ℕ) (d : During (Condition L))
      (s : Shared (Condition L)) (p : Shared L) (before after : List Call) (e : Errno)
      (rest : List Wakeup)
      → k.release self (record { object = s.object.predicate; monitors = s.monitors }) ≡ (ok tt, p)
      → (p.monitors self).status.mask.signaled ≡ true
      → Status.pending anything (p.monitors self).status ≡ false
      → d.wakeups none ≡ record { calls = before ++ notifies ∷ after; errno = e } ∷ rest
      → (let w = (perform_all before (blocked self (p.monitors self))).status in
          w.pending.interrupted && w.mask.interrupted ≡ false)
      → ((s1 : Shared (Condition L))
          → (s2 : Shared (Condition L)) × (k.acquire self s1 ≡ some (ok tt, s2)))
      → (s' : Shared (Condition L)) × (wait insert k self d s ≡ some (ok tt, s'))
  unfolding wait Monitor.acquire
  condition_notified insert k self d s p before after e rest rel sig q w i gets =
      let (m, woken, _) =
        wait_notified self 0 d.clock d.wakeups (Monitor.acquire (p.monitors self)) before after e
          rest sig q w i in
      let (s1, stayed, _) =
        stay-wait self 0 d (on_object (enter insert self) (unlocked p s)) woken in
      let (s2, locked) = gets (relocking self s1) in
      (
        on_monitor self end_deferral s2,
        rw rel (ap (resume finish_wait k self) stayed ∙ ap (leave (ok tt) self) locked),
      )
