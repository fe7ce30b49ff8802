-- ===== src/Queue/Monitored.antt =====
-- include/zthread/MonitoredQueue.h: an unbounded queue whose consumers wait. Each function is one go
-- of the method: a method that waits is run again, by the same thread, when it is woken and has the
-- lock.
use zthread.Base.{ℕ, Bool, true, false, List, [], ◌∷◌, ◌++◌, length, is_empty, if◌then◌else◌}
use zthread.Exceptions.{Exception}
use zthread.Blocking.{Condition, quiet, signal, broadcast, sleep, Outcome, returns, throws, waits}

pub record MonitoredQueue {ℓ} (T : Type ℓ) : Type ℓ where
  pub not_empty : Condition
  pub is_empty : Condition
  pub queue : List T
  pub canceled : Bool

module _ {ℓ} {T : Type ℓ} where
  abbrev pub init : MonitoredQueue T
  init = record { not_empty = quiet; is_empty = quiet; queue = []; canceled = false }

  -- `if(_queue.size() == 0) _isEmpty.broadcast();`
  abbrev pub wake_empty : MonitoredQueue T → MonitoredQueue T
  wake_empty q = if is_empty q.queue then record q { is_empty = broadcast q.is_empty } else q

  unfoldable pub add : T → MonitoredQueue T → Outcome (MonitoredQueue T) (Unit {0})
  add item q =
      if q.canceled
      then throws Exception.cancellation q
      else returns tt (record q { queue = q.queue ++ item ∷ []; not_empty = signal q.not_empty })

  -- With a timeout: the first argument is whether the lock was acquired in time.
  unfoldable pub add_within : Bool → T → MonitoredQueue T → Outcome (MonitoredQueue T) Bool
  add_within locked item q =
      if locked
      then (if q.canceled
          then throws Exception.cancellation q
          else returns true
              (record q { queue = q.queue ++ item ∷ []; not_empty = signal q.not_empty }))
      else returns false q

  unfoldable pub next : ℕ → MonitoredQueue T → Outcome (MonitoredQueue T) T
  next self q = elim q.queue [
    | [] ↦
        if q.canceled
        then throws Exception.cancellation q
        else waits (record q { not_empty = sleep self q.not_empty })
    | item ∷ rest ↦ returns item (wake_empty (record q { queue = rest }))
  ]

  -- The first argument is whether the lock, or the signal waited for, came in time.
  unfoldable pub next_within : Bool → ℕ → MonitoredQueue T → Outcome (MonitoredQueue T) T
  unfolding next
  next_within in_time self q = if in_time then next self q else throws Exception.timeout q

  unfoldable pub cancel : MonitoredQueue T → MonitoredQueue T
  cancel q = record q { canceled = true; not_empty = broadcast q.not_empty }

  abbrev pub is_canceled : MonitoredQueue T → Bool
  is_canceled q = q.canceled

  abbrev pub size : MonitoredQueue T → ℕ
  size q = length q.queue

  -- With a timeout: the first argument is whether the lock was acquired in time.
  unfoldable pub size_within : Bool → MonitoredQueue T → Outcome (MonitoredQueue T) ℕ
  size_within locked q = if locked then returns (size q) q else throws Exception.timeout q

  unfoldable pub empty : ℕ → MonitoredQueue T → Outcome (MonitoredQueue T) Bool
  empty self q =
      if is_empty q.queue
      then returns true q
      else waits (record q { is_empty = sleep self q.is_empty })

  -- `_isEmpty.wait(timeout)` is called for its effect alone: whether the signal came in time is
  -- dropped, and the loop goes on. Only the lock may time out.
  unfoldable pub empty_within : Bool → Bool → ℕ → MonitoredQueue T → Outcome (MonitoredQueue T) Bool
  unfolding empty
  empty_within locked signaled self q = if locked then empty self q else throws Exception.timeout q
