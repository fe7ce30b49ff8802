-- ===== src/Queue/Locked.antt =====
-- include/zthread/LockedQueue.h: a queue that never waits. Every method holds the lock throughout.
use zthread.Base.{ℕ, Bool, true, false, List, [], ◌∷◌, ◌++◌, length, if◌then◌else◌}
use zthread.Exceptions.{Exception}
use zthread.Blocking.{Outcome, returns, throws}

pub record LockedQueue {ℓ} (T : Type ℓ) : Type ℓ where
  pub queue : List T
  pub canceled : Bool

module _ {ℓ} {T : Type ℓ} where
  abbrev pub init : LockedQueue T
  init = record { queue = []; canceled = false }

  unfoldable pub add : T → LockedQueue T → Outcome (LockedQueue T) (Unit {0})
  add item q =
      if q.canceled
      then throws Exception.cancellation q
      else returns tt (record q { queue = q.queue ++ item ∷ [] })

  -- With a timeout: the first argument is whether the lock was acquired in time.
  unfoldable pub add_within : Bool → T → LockedQueue T → Outcome (LockedQueue T) Bool
  add_within locked item q =
      if locked
      then (if q.canceled
          then throws Exception.cancellation q
          else returns true (record q { queue = q.queue ++ item ∷ [] }))
      else returns false q

  unfoldable pub next : LockedQueue T → Outcome (LockedQueue T) T
  next q = elim q.queue [
    | [] ↦
        if q.canceled then throws Exception.cancellation q else throws Exception.no_such_element q
    | item ∷ rest ↦ returns item (record q { queue = rest })
  ]

  unfoldable pub next_within : Bool → LockedQueue T → Outcome (LockedQueue T) T
  unfolding next
  next_within locked q = if locked then next q else throws Exception.timeout q

  unfoldable pub cancel : LockedQueue T → LockedQueue T
  cancel q = record q { canceled = true }

  abbrev pub is_canceled : LockedQueue T → Bool
  is_canceled q = q.canceled

  abbrev pub size : LockedQueue T → ℕ
  size q = length q.queue

  unfoldable pub size_within : Bool → LockedQueue T → Outcome (LockedQueue T) ℕ
  size_within locked q = if locked then returns (size q) q else throws Exception.timeout q
