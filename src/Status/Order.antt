-- ===== src/Status/Order.antt =====
-- src/Status.h: in which order `next` reports the pending states, and what it leaves pending.
use zthread.Base.{◌≡◌, Bool, true, false, ◌&&◌, arith}
use zthread.Status.{State, Status, anything, pending, next}

abbrev pub reported : State → Bool
reported State.invalid = false
reported _ = true

-- `next` returns a state other than `invalid`, as its assertion demands, exactly when the test
-- `pending(ANYTHING)` that guards it holds, whatever the interest mask; and it never takes away the
-- canceled flag or a flag that the mask hides.
pub next-reported :
    (s : Status)
    → (reported (next s).0 ≡ pending anything s)
      × ((next s).1.mask ≡ s.mask)
      × ((next s).1.pending.canceled ≡ s.pending.canceled)
      × (s.mask.signaled ≡ false → (next s).1.pending.signaled ≡ s.pending.signaled)
      × (s.mask.interrupted ≡ false → (next s).1.pending.interrupted ≡ s.pending.interrupted)
unfolding next pending
next-reported s = ground arith

-- A pending signal of interest goes first, and absorbs a timeout; an interruption stays pending
-- behind it and is what the following call reports.
pub next_signaled :
    (s : Status)
    → s.pending.signaled && s.mask.signaled ≡ true
    → ((next s).0 ≡ State.signaled)
      × ((next s).1.pending.timedout ≡ false)
      × ((next s).1.pending.interrupted ≡ s.pending.interrupted)
      × (s.pending.interrupted && s.mask.interrupted ≡ true
          → (next (next s).1).0 ≡ State.interrupted)
unfolding next
next_signaled s h = ground arith

pub next-signaled :
    (s : Status) → s.mask.signaled ≡ true → s.pending.signaled ≡ true → (next s).0 ≡ State.signaled
unfolding next
next-signaled s h k = ground arith
