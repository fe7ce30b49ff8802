-- ===== src/Platform/Recursive/Robbed.antt =====
-- src/posix/ConditionRecursiveLock.h: the loop of `acquire` is not left only when the lock is free.
use zthread.Base.{ℕ, ◌+◌, ◌≡◌, refl, ap, false, some, List, ◌∷◌, ◌==◌}
use zthread.Platform.Recursive.{
  Conditional, Return, mark, wait_turn, conditional_acquire, conditional_try, conditional_release,
}

-- The lock while a thread holds it once.
abbrev pub held_by : ℕ → ℕ → Conditional
held_by u n = record { owner = u; count = 1; signals = n }

-- Its holder releases it, and another thread acquires it before the one that was signaled runs.
abbrev pub barged : ℕ → Conditional → Conditional
barged v l = (conditional_try v (conditional_release l)).1

-- What the waiting thread makes of it.
abbrev pub robbed : ℕ → ℕ → Conditional
robbed self n = record { owner = self; count = 2; signals = n + 1 }

barged-held : (u v n : ℕ) → barged v (held_by u n) ≡ held_by v (n + 1)
unfolding conditional_try conditional_release
barged-held u v n = refl

-- A thread that waits for the lock takes it from whoever owns it when its wait comes back: the holder
-- `u` releases it, which signals the waiting thread, `v` gets in first, and the thread that was signaled
-- becomes the owner while `v` holds the lock, without any spurious wakeup. The holder `v` is then refused
-- its own lock, and after the waiting thread has released what it acquired it is still the owner.
pub condition_lock_robbed :
    (self u v n : ℕ) (rest : List Return)
    → (u == 0) ≡ false
    → (self == 0) ≡ false
    → (u == self) ≡ false
    → (self == v) ≡ false
    → (conditional_acquire self (record { others = barged v; eintr = false } ∷ rest) (held_by u n)
        ≡ some (robbed self n))
      × ((conditional_try v (robbed self n)).0 ≡ false)
      × ((conditional_try v (conditional_release (robbed self n))).0 ≡ false)
unfolding conditional_acquire wait_turn conditional_try conditional_release
condition_lock_robbed self u v n rest a c d e =
    (rw (a, d) (ap (λ l. some (mark self l)) (barged-held u v n)), rw (c, e) refl, rw (c, e) refl)
