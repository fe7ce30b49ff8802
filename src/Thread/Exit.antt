-- ===== src/Thread/Exit.antt =====
-- `ThreadImpl::dispatch`, after the task, and `ThreadImpl::join` of src/ThreadImpl.cxx.
use zthread.Base.{
  ℕ, ◌≡◌, refl, ap, ◌∙◌, true, false, ◌&&◌, Option, none, some, List, [], ◌∷◌, ◌++◌, ◌==◌,
}
use zthread.Exceptions.{ok}
use zthread.Status.{State, anything}
use zthread.Status.Order.{next-signaled}
use zthread.Status
use zthread.State.{is_joined, is_reference, set_joined}
use zthread.Monitor.{Monitor, Call, notifies, perform_all}
use zthread.Monitor
use zthread.Monitor.Wait.{Errno, Wakeup}
use zthread.Monitor.Inversion.{blocked, target, wait-pending}
use zthread.Monitor.Wakeups.{pending-signaled, wait_notified}
use zthread.Waiters.{Monitors}
use zthread.Waiters.Passes.{wake_all}
use zthread.Waiters.Stay.{Shared, During, on_object, stay, stay-wait}
use zthread.Waiters.Laws.{deaf, wake_all-free}
use zthread.Waiters.Broadcast.{AllFree, wake_all-tells}
use zthread.Thread.{Thread, enter, depart, resume, finish, join, tell_rest}

-- When its task is over, and no other thread's monitor is locked, or used by others while the thread
-- goes over its joiners, the thread is joined and has no joiners left, and every thread that joins it,
-- and has no interruption of interest pending, holds the signal.
pub exit_tells :
    (others : ℕ → Monitors → Monitors) (s : Shared Thread) (before after : List ℕ) (t : ℕ)
    → AllFree s.monitors
    → s.object.joiners ≡ before ++ t ∷ after
    → deaf (s.monitors t) ≡ false
    → (is_joined (finish others s).object.stage ≡ true)
      × ((finish others s).object.joiners ≡ [])
      × (((finish others s).monitors t).status.pending.signaled ≡ true)
unfolding finish set_joined tell_rest
exit_tells others s before after t free e h =
    let empty = wake_all-free s.object.joiners s.monitors free in
    (
      refl,
      empty,
      ap
            (λ ws.
              (tell_rest others ws (wake_all s.object.joiners s.monitors).monitors
                t).status.pending.signaled)
            empty
          ∙ ap (λ ws. ((wake_all ws s.monitors).monitors t).status.pending.signaled) e
          ∙ wake_all-tells before after t s.monitors free h,
    )

-- A thread that joins another, which is no reference thread and not joined yet, with or without a
-- timeout, and whose monitor has an interest in signals and nothing pending, blocks; if it is notified
-- before the first return of its condition wait, while no interruption of interest is pending, and then
-- gets the other's monitor again while it has the lock of its own, `join` returns true and takes one entry of it out of the joiners as others left them, whatever else is
-- done to its monitor before and after.
pub join_notified :
    (this self timeout : ℕ) (d : During Thread) (s : Shared Thread) (before after : List Call)
    (e : Errno) (rest : List Wakeup)
    → (this == self) ≡ false
    → is_reference s.object.stage ≡ false
    → is_joined s.object.stage ≡ false
    → (s.monitors self).status.mask.signaled ≡ true
    → Status.pending anything (s.monitors self).status ≡ false
    → d.wakeups (target d.clock timeout)
      ≡ record { calls = before ++ notifies ∷ after; errno = e } ∷ rest
    → (let w = (perform_all before (blocked self (s.monitors self))).status in
        w.pending.interrupted && w.mask.interrupted ≡ false)
    → (s' : Shared Thread) × (join true this self timeout d s ≡ some (ok true, s'))
      × (s'.object ≡ depart self (d.others (on_object (enter self) s)).object)
unfolding join Monitor.acquire
join_notified this self timeout d s before after e rest other ref_ joined sig q w i =
    let (m, woken, _) =
      wait_notified self timeout d.clock d.wakeups (Monitor.acquire (s.monitors self)) before after
        e rest sig q w i in
    let (s1, stayed, object) = stay-wait self timeout d (on_object (enter self) s) woken in
    (
      on_object (depart self) s1,
      rw (other, ref_, joined) (ap (resume true self) stayed),
      ap (depart self) object,
    )

-- `join` takes any signal for the end of the thread: where the monitor of the thread that joins holds
-- one already, it comes back with true although the thread that it joins has not finished, whatever
-- others do, if it gets the other's monitor again while it has the lock of its own.
pub join_stale :
    (this self timeout : ℕ) (d : During Thread) (s : Shared Thread)
    → (this == self) ≡ false
    → is_reference s.object.stage ≡ false
    → is_joined s.object.stage ≡ false
    → (s.monitors self).status.mask.signaled ≡ true
    → (s.monitors self).status.pending.signaled ≡ true
    → (s' : Shared Thread) × (join true this self timeout d s ≡ some (ok true, s'))
      × (s'.object ≡ depart self (d.others (on_object (enter self) s)).object)
unfolding join Monitor.acquire
join_stale this self timeout d s other ref_ joined sig p =
    let (s1, stayed, object) = stay-wait self timeout d (on_object (enter self) s) (
      wait-pending self timeout d.clock d.wakeups (Monitor.acquire (s.monitors self))
        (pending-signaled (s.monitors self).status sig p)
        (next-signaled (s.monitors self).status sig p)) in
    (
      on_object (depart self) s1,
      rw (other, ref_, joined) (ap (resume true self) stayed),
      ap (depart self) object,
    )

-- `join` holds the lock of its own monitor while it waits for that of the thread that it joins: if that
-- lock never becomes free, as where the other waits in `dispatch` for the lock that this thread holds,
-- no `join` of a thread that has not finished comes back.
pub join_blocked :
    (this self timeout : ℕ) (d : During Thread) (s : Shared Thread)
    → (this == self) ≡ false
    → is_reference s.object.stage ≡ false
    → is_joined s.object.stage ≡ false
    → join false this self timeout d s ≡ none
unfolding join
join_blocked this self timeout d s other ref_ joined =
    rw (other, ref_, joined) (gone (stay self timeout d (on_object (enter self) s)))
  where
    gone : (r : Option (State × Shared Thread)) → resume false self r ≡ none
    gone none = refl
    gone (some r) = refl
