-- ===== src/RecursiveMutex/Nesting.antt =====
-- src/RecursiveMutexImpl.cxx: acquisitions by the owner nest.
use zthread.Base.{
  ℕ, zero, suc, ◌+◌, ◌^◌, ◌<◌, ◌≡◌, sym, ap, ◌∙◌, true, false, Option, none, some, List, arith,
  ◌==◌,
}
use zthread.Exceptions.{Result, ok, throw}
use zthread.Waiters.Stay.{Shared, During, on_object}
use zthread.RecursiveMutex.{RecursiveMutex, Round, decrement, owned_by, acquire, release}

abbrev pub Outcome : Type 0
Outcome = Option (Result (Unit {0}) × Shared RecursiveMutex)

-- The following call, if the one before came back without an exception.
abbrev pub then_do : (Shared RecursiveMutex → Outcome) → Outcome → Outcome
then_do f none = none
then_do f (some (ok _, s)) = f s
then_do f (some (throw e, s)) = some (throw e, s)

-- `n` calls of `acquire`, and `n` of `release`, by one thread.
abbrev pub acquire_times : ℕ → ℕ → During RecursiveMutex → Shared RecursiveMutex → Outcome
acquire_times zero self d s = some (ok tt, s)
acquire_times (suc n) self d s = then_do (acquire_times n self d) (acquire self d s)

abbrev pub release_times : ℕ → ℕ → List Round → Shared RecursiveMutex → Outcome
release_times zero self rs s = some (ok tt, s)
release_times (suc n) self rs s = then_do (release_times n self rs) (release self rs s)

abbrev raised : ℕ → Shared RecursiveMutex → Shared RecursiveMutex
raised n s = on_object (λ o. record o { count = o.count + n }) s

set_count : ℕ → Shared RecursiveMutex → Shared RecursiveMutex
set_count c s = on_object (λ o. record o { count = c }) s

acquire_again :
    (self : ℕ) (d : During RecursiveMutex) (s : Shared RecursiveMutex)
    → owned_by self s.object ≡ true
    → s.object.count + 1 < 2 ^ 64
    → acquire self d s ≡ some (ok tt, raised 1 s)
unfolding acquire set_count
acquire_again self d s own h = rw own (ap (λ c. some (ok tt, set_count c s)) (omega arith))

positive : (c : ℕ) → 0 < c → (c == 0) ≡ false
positive c h = ground arith

release_again :
    (self : ℕ) (rs : List Round) (s : Shared RecursiveMutex)
    → owned_by self s.object ≡ true
    → 0 < s.object.count
    → s.object.count + 1 < 2 ^ 64
    → release self rs (raised 1 s) ≡ some (ok tt, s)
unfolding release
release_again self rs s own p h =
    let e : decrement (s.object.count + 1) ≡ s.object.count = omega arith in
    rw (own, e, positive s.object.count p)

raised-suc : (n : ℕ) (s : Shared RecursiveMutex) → raised n (raised 1 s) ≡ raised (suc n) s
unfolding set_count
raised-suc n s = ap (λ c. set_count c s) (omega arith)

one_raised_more : (n : ℕ) (s : Shared RecursiveMutex) → raised (suc n) s ≡ raised 1 (raised n s)
unfolding set_count
one_raised_more n s = ap (λ c. set_count c s) (omega arith)

raised-zero : (s : Shared RecursiveMutex) → raised 0 s ≡ s
unfolding set_count
raised-zero s = ap (λ c. set_count c s) (omega arith)

module _ (self : ℕ) (d : During RecursiveMutex) (rs : List Round) where
  acquires :
      (n : ℕ) (s : Shared RecursiveMutex)
      → owned_by self s.object ≡ true
      → s.object.count + n < 2 ^ 64
      → acquire_times n self d s ≡ some (ok tt, raised n s)
  acquires zero s own h = ap (λ x. some (ok tt, x)) (sym (raised-zero s))
  acquires (suc n) s own h =
      ap (then_do (acquire_times n self d)) (acquire_again self d s own (omega arith))
      ∙ acquires n (raised 1 s) own (omega arith)
      ∙ ap (λ x. some (ok tt, x)) (raised-suc n s)

  releases :
      (n : ℕ) (s : Shared RecursiveMutex)
      → owned_by self s.object ≡ true
      → 0 < s.object.count
      → s.object.count + n < 2 ^ 64
      → release_times n self rs (raised n s) ≡ some (ok tt, s)
  releases zero s own p h = ap (λ x. some (ok tt, x)) (raised-zero s)
  releases (suc n) s own p h =
      ap (λ x. then_do (release_times n self rs) (release self rs x)) (one_raised_more n s)
      ∙ ap (then_do (release_times n self rs))
          (release_again self rs (raised n s) own (omega arith) (omega arith))
      ∙ releases n s own p (omega arith)

  -- The owner may acquire the mutex again any number of times that its count has room for, without
  -- blocking: as many releases then undo it, the mutex still being owned, and no waiter is woken.
  pub release-acquire_times :
      (n : ℕ) (s : Shared RecursiveMutex)
      → owned_by self s.object ≡ true
      → 0 < s.object.count
      → s.object.count + n < 2 ^ 64
      → then_do (release_times n self rs) (acquire_times n self d s) ≡ some (ok tt, s)
  release-acquire_times n s own p h =
      ap (then_do (release_times n self rs)) (acquires n s own h) ∙ releases n s own p h
