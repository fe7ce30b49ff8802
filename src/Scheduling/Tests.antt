-- ===== src/Scheduling/Tests.antt =====
-- src/Scheduling.h: tests.
use zthread.Base.{ℕ, zero, suc, ◌≡◌, ◌≢◌, ◌⊎◌, true, false}
use zthread.Scheduling.{priority_order, priority_order_strict}

-- Thread 0 has the priority 2, and all others 1.
abbrev priority : ℕ → ℕ
priority zero = 2
priority (suc t) = 1

priority_order_strict_example :
    let before = priority_order priority in
    (before 0 0 ≡ false)
    × (before 0 1 ≡ true → before 1 0 ≡ false)
    × (before 0 1 ≡ true → before 1 2 ≡ true → before 0 2 ≡ true)
    × (◌≢◌ {A = ℕ} 0 1 → (before 0 1 ≡ true) ⊎ (before 1 0 ≡ true))
priority_order_strict_example = priority_order_strict priority 0 1 2
