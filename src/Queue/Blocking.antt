-- ===== src/Queue/Blocking.antt =====
-- include/zthread/BlockingQueue.h: an unbounded queue whose consumers wait, and on whose emptiness
-- nobody waits. Each function is one go of the method.
use zthread.Base.{
  ℕ, ◌≡◌, refl, Bool, true, false, List, [], ◌∷◌, ◌++◌, arith, length, if◌then◌else◌,
}
use zthread.Exceptions.{Exception}
use zthread.Blocking.{
  Condition, quiet, signal, broadcast, sleep, Outcome, returns, throws, waits, map_state,
}
use zthread.Queue.Monitored.{MonitoredQueue}
use zthread.Queue.Monitored

pub record BlockingQueue {ℓ} (T : Type ℓ) : Type ℓ where
  pub not_empty : Condition
  pub queue : List T
  pub canceled : Bool

module _ {ℓ} {T : Type ℓ} where
  abbrev pub init : BlockingQueue T
  init = record { not_empty = quiet; queue = []; canceled = false }

  unfoldable pub add : T → BlockingQueue T → Outcome (BlockingQueue T) (Unit {0})
  add item q =
      if q.canceled
      then throws Exception.cancellation q
      else returns tt (record q { queue = q.queue ++ item ∷ []; not_empty = signal q.not_empty })

  -- With a timeout: the first argument is whether the lock was acquired in time.
  unfoldable pub add_within : Bool → T → BlockingQueue T → Outcome (BlockingQueue T) Bool
  add_within locked item q =
      if locked
      then (if q.canceled
          then throws Exception.cancellation q
          else returns true
              (record q { queue = q.queue ++ item ∷ []; not_empty = signal q.not_empty }))
      else returns false q

  unfoldable pub next : ℕ → BlockingQueue T → Outcome (BlockingQueue T) T
  next self q = elim q.queue [
    | [] ↦
        if q.canceled
        then throws Exception.cancellation q
        else waits (record q { not_empty = sleep self q.not_empty })
    | item ∷ rest ↦ returns item (record q { queue = rest })
  ]

  -- The first argument is whether the lock, or the signal waited for, came in time.
  unfoldable pub next_within : Bool → ℕ → BlockingQueue T → Outcome (BlockingQueue T) T
  unfolding next
  next_within in_time self q = if in_time then next self q else throws Exception.timeout q

  unfoldable pub cancel : BlockingQueue T → BlockingQueue T
  cancel q = record q { canceled = true; not_empty = broadcast q.not_empty }

  abbrev pub is_canceled : BlockingQueue T → Bool
  is_canceled q = q.canceled

  abbrev pub size : BlockingQueue T → ℕ
  size q = length q.queue

  unfoldable pub size_within : Bool → BlockingQueue T → Outcome (BlockingQueue T) ℕ
  size_within locked q = if locked then returns (size q) q else throws Exception.timeout q

  -- A monitored queue whose emptiness is not watched.
  abbrev pub unwatched : MonitoredQueue T → BlockingQueue T
  unwatched q = record { not_empty = q.not_empty; queue = q.queue; canceled = q.canceled }

  next-unwatched :
      (self : ℕ) (q : MonitoredQueue T) (xs : List T)
      → q.queue ≡ xs
      → map_state unwatched (Monitored.next self q) ≡ next self (unwatched q)
  unfolding next Monitored.next
  next-unwatched self q [] e = rw e (ground arith)
  next-unwatched self q (x ∷ xs) e = rw e (ground arith)

  add-unwatched :
      (item : T) (q : MonitoredQueue T)
      → map_state unwatched (Monitored.add item q) ≡ add item (unwatched q)
  unfolding add Monitored.add
  add-unwatched item q = ground arith

  -- A blocking queue is a monitored queue whose emptiness nobody watches: `add`, `next` and `cancel`
  -- have the same results and exceptions, leave the same items, and let the same consumers wait and
  -- wake.
  pub monitored_is_blocking :
      (self : ℕ) (item : T) (q : MonitoredQueue T)
      → (map_state unwatched (Monitored.add item q) ≡ add item (unwatched q))
        × (map_state unwatched (Monitored.next self q) ≡ next self (unwatched q))
        × (unwatched (Monitored.cancel q) ≡ cancel (unwatched q))
  unfolding cancel Monitored.cancel
  monitored_is_blocking self item q =
      (add-unwatched item q, next-unwatched self q q.queue refl, refl)
