-- ===== src/Queue/Unwaiting.antt =====
-- include/zthread/LockedQueue.h beside include/zthread/MonitoredQueue.h.
use zthread.Base.{ℕ, ◌≡◌, refl, List, [], ◌∷◌, arith}
use zthread.Exceptions.{Exception}
use zthread.Blocking.{Outcome, returns, throws, waits, map_state}
use zthread.Queue.Locked.{LockedQueue}
use zthread.Queue.Locked
use zthread.Queue.Monitored.{MonitoredQueue}
use zthread.Queue.Monitored

module _ {ℓ} {T : Type ℓ} where
  -- A monitored queue without its conditions.
  abbrev pub unwatch : MonitoredQueue T → LockedQueue T
  unwatch q = record { queue = q.queue; canceled = q.canceled }

  -- A go that would wait throws instead.
  abbrev pub no_wait : {A : Type ℓ} → Outcome (MonitoredQueue T) A → Outcome (LockedQueue T) A
  no_wait (returns a q) = returns a (unwatch q)
  no_wait (throws e q) = throws e (unwatch q)
  no_wait (waits q) = throws Exception.no_such_element (unwatch q)

  add-unwatch :
      (item : T) (q : MonitoredQueue T)
      → map_state unwatch (Monitored.add item q) ≡ Locked.add item (unwatch q)
  unfolding Monitored.add Locked.add
  add-unwatch item q = ground arith

  next-unwatch :
      (self : ℕ) (q : MonitoredQueue T) (xs : List T)
      → q.queue ≡ xs
      → no_wait (Monitored.next self q) ≡ Locked.next (unwatch q)
  unfolding Monitored.next Locked.next
  next-unwatch self q [] e = rw e (ground arith)
  next-unwatch self q (x ∷ xs) e = rw e (ground arith)

  -- A locked queue does what a monitored queue does, with the same results and exceptions, but that
  -- where the latter's `next` waits for an item its own throws NoSuchElement_Exception.
  pub monitored_is_locked :
      (self : ℕ) (item : T) (q : MonitoredQueue T)
      → (map_state unwatch (Monitored.add item q) ≡ Locked.add item (unwatch q))
        × (no_wait (Monitored.next self q) ≡ Locked.next (unwatch q))
        × (unwatch (Monitored.cancel q) ≡ Locked.cancel (unwatch q))
  unfolding Monitored.cancel Locked.cancel
  monitored_is_locked self item q = (add-unwatch item q, next-unwatch self q q.queue refl, refl)
