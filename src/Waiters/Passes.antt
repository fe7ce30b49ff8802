-- ===== src/Waiters/Passes.antt =====
-- The inner loops of the releasing and signaling functions: one pass over the waiters.
use zthread.Base.{Bool, true, false, ℕ, Option, none, some, List, [], ◌∷◌}
use zthread.Waiters.{Monitors, Attempt, busy, failed, woke, attempt}

pub record Pass : Type 0 where
  pub returned : Bool
  pub waiters : List ℕ
  pub monitors : Monitors

abbrev pub skip : ℕ → Pass → Pass
skip t p = record p { waiters = t ∷ p.waiters }

-- `SemaphoreImpl::release` and `ConditionImpl::signal`: a waiter that is tried is erased, and the
-- first that can be notified ends the function.
abbrev pub first_after : ℕ → List ℕ → (Monitors → Pass) → Attempt × Monitors → Pass
first_after t ts rest (busy, ms) = skip t (rest ms)
first_after t ts rest (failed, ms) = rest ms
first_after t ts rest (woke, ms) = record { returned = true; waiters = ts; monitors = ms }

unfoldable pub wake_first : List ℕ → Monitors → Pass
wake_first [] ms = record { returned = false; waiters = []; monitors = ms }
wake_first (t ∷ ts) ms = first_after t ts (wake_first ts) (attempt t ms)

-- `ConditionImpl::broadcast`: every waiter that is tried is erased.
abbrev pub all_after : ℕ → (Monitors → Pass) → Attempt × Monitors → Pass
all_after t rest (busy, ms) = skip t (rest ms)
all_after t rest (failed, ms) = rest ms
all_after t rest (woke, ms) = rest ms

unfoldable pub wake_all : List ℕ → Monitors → Pass
wake_all [] ms = record { returned = false; waiters = []; monitors = ms }
wake_all (t ∷ ts) ms = all_after t (wake_all ts) (attempt t ms)

-- `MutexImpl::release` and `RecursiveMutexImpl::release`: nothing is erased, and a waiter that could
-- not be notified is tried again at once. Meanwhile other threads may use the monitors, and each
-- entry of the first list is what they do before one such attempt: `none` when the list is at its
-- end and the loop still goes on. Otherwise whether the function returns, and the monitors.
abbrev pub kept_after :
    (Monitors → Option (Bool × Monitors))
    → (Monitors → Option (Bool × Monitors))
    → Attempt × Monitors
    → Option (Bool × Monitors)
kept_after rest again (busy, ms) = rest ms
kept_after rest again (failed, ms) = again ms
kept_after rest again (woke, ms) = some (true, ms)

unfoldable pub wake_kept : List (Monitors → Monitors) → List ℕ → Monitors → Option (Bool × Monitors)
wake_kept es [] ms = some (false, ms)
wake_kept [] (t ∷ ts) ms = kept_after (wake_kept [] ts) (λ _. none) (attempt t ms)
wake_kept (e ∷ es) (t ∷ ts) ms =
    kept_after (wake_kept (e ∷ es) ts) (λ ms'. wake_kept es (t ∷ ts) (e ms')) (attempt t ms)
