-- ===== src/Semaphore/Release.antt =====
-- `SemaphoreImpl::release` of src/SemaphoreImpl.h.
use zthread.Base.{
  ℕ, ◌≡◌, refl, ap, ◌∙◌, inl, inr, Bool, true, false, ◌&&◌, ◌||◌, some, List, [], ◌∷◌, ◌++◌,
  is_empty, Bool-cases,
}
use zthread.Base.Int.{suc_ℤ}
use zthread.Exceptions.{Exception, ok, throw}
use zthread.Waiters.{Monitors, update}
use zthread.Waiters.Passes.{Pass, wake_first}
use zthread.Waiters.Stay.{Shared}
use zthread.Waiters.Laws.{
  NoneReady, NoneBusy, IsReady, busy_of, notified, wake_first-ready, wake_first-none, IsReady-cases,
}
use zthread.Semaphore.{Semaphore, equal_ℤ, release_pass, release_loop, release}

-- The check that precedes the increment.
abbrev pub is_full : Semaphore → Bool
is_full o = o.checked && equal_ℤ o.count o.max_count

abbrev pub raised : List ℕ → Monitors → Shared Semaphore → Shared Semaphore
raised ws ms s = record {
  object = record (s.object) { waiters = ws; count = suc_ℤ s.object.count };
  monitors = ms;
}

release_loop-returned :
    (others : List (Shared Semaphore → Shared Semaphore)) (s : Shared Semaphore) {p : Pass}
    → wake_first s.object.waiters s.monitors ≡ p
    → p.returned || is_empty p.waiters ≡ true
    → release_loop others s
      ≡ some (record { object = record (s.object) { waiters = p.waiters }; monitors = p.monitors })
unfolding release_loop release_pass
release_loop-returned [] s e h = rw (e, h)
release_loop-returned (f ∷ rest) s e h = rw (e, h)

-- A release that the check lets through raises the count by one and wakes the first waiter of the
-- list that is ready, in its first round, so that it never lets go of its lock; no other thread uses
-- a listed waiter's monitor during that round. Of the waiters before the one that is woken the busy
-- ones stay listed and those with an interruption pending are dropped; those behind it stay, and no
-- other monitor is touched.
pub release_wakes :
    (others : List (Shared Semaphore → Shared Semaphore)) (s : Shared Semaphore)
    (before after : List ℕ) (t : ℕ)
    → is_full s.object ≡ false
    → s.object.waiters ≡ before ++ t ∷ after
    → NoneReady s.monitors before
    → IsReady (s.monitors t)
    → release others s
      ≡ some (
        ok tt,
        raised
            (busy_of s.monitors before ++ after)
            (update s.monitors t (notified (s.monitors t)))
            s,
      )
unfolding release
release_wakes others s before after t f e n r = rw (
  f,
  release_loop-returned others
      (record {
        object = record (s.object) { count = suc_ℤ s.object.count };
        monitors = s.monitors;
      })
      (ap (λ ws. wake_first ws s.monitors) e ∙ wake_first-ready before after t s.monitors n r) refl,
)

pass_done :
    (s : Shared Semaphore) → NoneBusy s.monitors s.object.waiters → (release_pass s).0 ≡ true
unfolding release_pass
pass_done s n = elim (IsReady-cases s.object.waiters s.monitors n) [
  | inl (none_ready, e) ↦ rw (wake_first-none s.object.waiters s.monitors none_ready, e)
  | inr (before, t, after, e, none_ready, r) ↦
      ap (λ (p : Pass). p.returned || is_empty p.waiters)
        (ap (λ ws. wake_first ws s.monitors) e
          ∙ wake_first-ready before after t s.monitors none_ready r)
]

loop_done :
    (others : List (Shared Semaphore → Shared Semaphore)) (s : Shared Semaphore)
    → (release_pass s).0 ≡ true
    → release_loop others s ≡ some (release_pass s).1
unfolding release_loop
loop_done [] s h = rw h
loop_done (f ∷ rest) s h = rw h

-- The state in which `release` backs off for the first time, if it does.
abbrev pub backed_off : Shared Semaphore → Shared Semaphore
backed_off s = (release_pass (raised s.object.waiters s.monitors s)).1

loop_returns :
    (f : Shared Semaphore → Shared Semaphore) (rest : List (Shared Semaphore → Shared Semaphore))
    (s : Shared Semaphore)
    → (release_pass (f (release_pass s).1)).0 ≡ true
    → (s' : Shared Semaphore) × (release_loop (f ∷ rest) s ≡ some s')
unfolding release_loop
loop_returns f rest s h = elim (Bool-cases (release_pass s).0) [
  | inl d ↦ ((release_pass s).1, rw d)
  | inr d ↦
      ((release_pass (f (release_pass s).1)).1, rw d (loop_done rest (f (release_pass s).1) h))
]

-- `release` comes back, whatever the state of the waiters' monitors, once the threads that hold them
-- let go of them: if no listed waiter is busy after the first backoff, then it returns, at the latest
-- in the round after it. A refused release comes back at once, with the exception and the state
-- unchanged.
pub release_returns :
    (f : Shared Semaphore → Shared Semaphore) (rest : List (Shared Semaphore → Shared Semaphore))
    (s : Shared Semaphore)
    → NoneBusy (f (backed_off s)).monitors (f (backed_off s)).object.waiters
    → (is_full s.object ≡ true → release (f ∷ rest) s ≡ some (throw Exception.invalid_op, s))
      × (is_full s.object ≡ false
          → (s' : Shared Semaphore) × (release (f ∷ rest) s ≡ some (ok tt, s')))
unfolding release
release_returns f rest s h = (
  λ e. rw e,
  λ e.
      let (s', r) =
        loop_returns f rest (raised s.object.waiters s.monitors s)
          (pass_done (f (backed_off s)) h) in
      (s', rw (e, r)),
)
