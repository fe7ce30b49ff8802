-- ===== src/InheritPriority.antt =====
-- src/PriorityInheritanceMutex.cxx: what InheritPriorityBehavior does when MutexImpl calls its hooks. The
-- priorities of the threads are an argument, the native priorities are those that
-- `ThreadOps::setPriority` sets.
use zthread.Base.{ℕ, ◌≡◌, true, false, Option, none, some, ◌==◌, ltb, arith, if◌then◌else◌}
use zthread.Thread.{Priority}

-- `(int)p`
abbrev pub rank : Priority → ℕ
rank Priority.low = 0
rank Priority.medium = 1
rank Priority.high = 2

pub record InheritPriority : Type 0 where
  pub owner : Option ℕ
  pub p : Priority
  pub native : ℕ → Priority

abbrev pub set_priority : ℕ → Priority → InheritPriority → InheritPriority
set_priority t p b = record b { native = λ u. if t == u then p else b.native u }

unfoldable pub waiter_arrived : (ℕ → Priority) → ℕ → InheritPriority → InheritPriority
waiter_arrived priority t b =
    if ltb (rank b.p) (rank (priority t))
    then record (set_priority t b.p b) { p = priority t }
    else b

unfoldable pub owner_acquired : (ℕ → Priority) → ℕ → InheritPriority → InheritPriority
owner_acquired priority t b = record b { p = priority t; owner = some t }

abbrev pub priority_of : (ℕ → Priority) → Option ℕ → Priority
priority_of priority none = Priority.low
priority_of priority (some t) = priority t

-- There is an owner.
unfoldable pub owner_released : (ℕ → Priority) → ℕ → InheritPriority → InheritPriority
owner_released priority t b =
    if ltb (rank (priority_of priority b.owner)) (rank b.p)
    then set_priority t (priority t) b
    else b

-- When a thread of a higher priority waits for a mutex, the native priority of the owner stays what it
-- was, and that of the waiting thread becomes the owner's; the release of the mutex leaves it at
-- that.
pub waiter_demoted :
    (priority : ℕ → Priority) (o w : ℕ) (b : InheritPriority)
    → (w == o) ≡ false
    → (o == w) ≡ false
    → ltb (rank (priority o)) (rank (priority w)) ≡ true
    → let waited = waiter_arrived priority w (owner_acquired priority o b) in
      let released = owner_released priority o waited in
      (waited.native o ≡ b.native o)
      × (waited.native w ≡ priority o)
      × (released.native w ≡ priority o)
unfolding waiter_arrived owner_acquired owner_released
waiter_demoted priority o w b d d' h = ground arith
