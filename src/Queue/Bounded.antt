-- ===== src/Queue/Bounded.antt =====
-- include/zthread/BoundedQueue.h: a queue with a capacity, whose producers and consumers wait. Each
-- function is one go of the method: a method that waits is run again, by the same thread, when it is
-- woken and has the lock.
use zthread.Base.{
  ℕ, Bool, true, false, not, ◌&&◌, List, [], ◌∷◌, ◌++◌, length, is_empty, ◌==◌, if◌then◌else◌,
}
use zthread.Exceptions.{Exception}
use zthread.Blocking.{Condition, quiet, signal, broadcast, sleep, Outcome, returns, throws, waits}

pub record BoundedQueue {ℓ} (T : Type ℓ) : Type ℓ where
  pub capacity : ℕ
  pub not_full : Condition
  pub not_empty : Condition
  pub is_empty : Condition
  pub queue : List T
  pub canceled : Bool

module _ {ℓ} {T : Type ℓ} where
  abbrev pub init : ℕ → BoundedQueue T
  init capacity = record {
    capacity = capacity;
    not_full = quiet;
    not_empty = quiet;
    is_empty = quiet;
    queue = [];
    canceled = false;
  }

  -- `(_queue.size() == _capacity) && !_canceled`
  abbrev pub must_wait : BoundedQueue T → Bool
  must_wait q = (length q.queue == q.capacity) && not q.canceled

  -- `_queue.push_back(item); _notEmpty.signal();`
  abbrev pub append : T → BoundedQueue T → BoundedQueue T
  append item q = record q { queue = q.queue ++ item ∷ []; not_empty = signal q.not_empty }

  unfoldable pub add : ℕ → T → BoundedQueue T → Outcome (BoundedQueue T) (Unit {0})
  add self item q =
      if must_wait q
      then waits (record q { not_full = sleep self q.not_full })
      else if q.canceled
      then throws Exception.cancellation q
      else returns tt (append item q)

  -- With a timeout: the first argument is whether the lock, or the signal waited for, came in time.
  unfoldable pub add_within : Bool → ℕ → T → BoundedQueue T → Outcome (BoundedQueue T) Bool
  add_within in_time self item q =
      if not in_time
      then returns false q
      else if must_wait q
      then waits (record q { not_full = sleep self q.not_full })
      else if q.canceled
      then throws Exception.cancellation q
      else returns true (append item q)

  -- `if(_queue.size() == 0) _isEmpty.broadcast();`
  abbrev pub wake_empty : BoundedQueue T → BoundedQueue T
  wake_empty q = if is_empty q.queue then record q { is_empty = broadcast q.is_empty } else q

  unfoldable pub next : ℕ → BoundedQueue T → Outcome (BoundedQueue T) T
  next self q = elim q.queue [
    | [] ↦
        if q.canceled
        then throws Exception.cancellation q
        else waits (record q { not_empty = sleep self q.not_empty })
    | item ∷ rest ↦
        returns item (wake_empty (record q { queue = rest; not_full = signal q.not_full }))
  ]

  unfoldable pub next_within : Bool → ℕ → BoundedQueue T → Outcome (BoundedQueue T) T
  unfolding next
  next_within in_time self q = if in_time then next self q else throws Exception.timeout q

  unfoldable pub cancel : BoundedQueue T → BoundedQueue T
  cancel q = record q { canceled = true; not_empty = broadcast q.not_empty }

  abbrev pub is_canceled : BoundedQueue T → Bool
  is_canceled q = q.canceled

  abbrev pub size : BoundedQueue T → ℕ
  size q = length q.queue

  -- With a timeout: the first argument is whether the lock was acquired in time.
  unfoldable pub size_within : Bool → BoundedQueue T → Outcome (BoundedQueue T) ℕ
  size_within locked q = if locked then returns (size q) q else throws Exception.timeout q

  unfoldable pub empty : ℕ → BoundedQueue T → Outcome (BoundedQueue T) Bool
  empty self q =
      if is_empty q.queue
      then returns true q
      else waits (record q { is_empty = sleep self q.is_empty })

  -- `_isEmpty.wait(timeout)` is called for its effect alone: whether the signal came in time is
  -- dropped, and the loop goes on. Only the lock may time out.
  unfoldable pub empty_within : Bool → Bool → ℕ → BoundedQueue T → Outcome (BoundedQueue T) Bool
  unfolding empty
  empty_within locked signaled self q = if locked then empty self q else throws Exception.timeout q
