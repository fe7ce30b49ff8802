-- ===== src/Condition/Signals.antt =====
-- `ConditionImpl::signal` and `ConditionImpl::broadcast` of src/ConditionImpl.h.
use zthread.Base.{ℕ, ◌≡◌, ap, ◌∙◌, Bool, true, false, ◌||◌, some, List, [], ◌∷◌, ◌++◌, is_empty}
use zthread.Waiters.{update}
use zthread.Waiters.Passes.{Pass, wake_first, wake_all}
use zthread.Waiters.Stay.{Shared}
use zthread.Waiters.Laws.{
  NoneReady, IsReady, busy_of, deaf, notified, wake_first-ready, wake_all-free,
}
use zthread.Waiters.Broadcast.{AllFree, wake_all-tells}
use zthread.Condition.{
  Condition, set_waiters, signal_pass, broadcast_pass, repeat, signal, broadcast,
}

module _ {L : Type 0} where
  pub repeat-done :
      (pass : Shared (Condition L) → Bool × Shared (Condition L))
      (others : List (Shared (Condition L) → Shared (Condition L))) (s : Shared (Condition L))
      → (pass s).0 ≡ true
      → repeat pass others s ≡ some (pass s).1
  unfolding repeat
  repeat-done pass [] s h = rw h
  repeat-done pass (f ∷ rest) s h = rw h

  pub pass-woke :
      (s : Shared (Condition L)) {p : Pass}
      → wake_first s.object.waiters s.monitors ≡ p
      → signal_pass s ≡ (p.returned || is_empty p.waiters, set_waiters p.waiters p.monitors s)
  unfolding signal_pass
  pass-woke s e = rw e

  -- `signal` wakes the first waiter of the list that is ready, in its first round. Of the waiters
  -- before it the busy ones stay listed and those with an interruption pending are dropped; it is
  -- erased, those behind it stay, and no other monitor is touched.
  pub signal_wakes :
      (others : List (Shared (Condition L) → Shared (Condition L))) (s : Shared (Condition L))
      (before after : List ℕ) (t : ℕ)
      → s.object.waiters ≡ before ++ t ∷ after
      → NoneReady s.monitors before
      → IsReady (s.monitors t)
      → signal others s
        ≡ some (
            set_waiters
              (busy_of s.monitors before ++ after)
              (update s.monitors t (notified (s.monitors t)))
              s)
  unfolding signal
  signal_wakes others s before after t e n r =
      let p =
        pass-woke s (
          ap (λ ws. wake_first ws s.monitors) e ∙ wake_first-ready before after t s.monitors n r) in
      repeat-done signal_pass others s (ap (λ x. x.0) p) ∙ ap (λ x. some x.1) p

  -- Where no thread holds a monitor's lock, `broadcast` returns in its first round with nobody listed,
  -- and every thread that was listed, and has no interruption of interest pending, holds the signal.
  pub broadcast_tells :
      (others : List (Shared (Condition L) → Shared (Condition L))) (s : Shared (Condition L))
      (before after : List ℕ) (t : ℕ)
      → AllFree s.monitors
      → s.object.waiters ≡ before ++ t ∷ after
      → deaf (s.monitors t) ≡ false
      → (s' : Shared (Condition L)) × (broadcast others s ≡ some s')
        × (s'.object.waiters ≡ [])
        × ((s'.monitors t).status.pending.signaled ≡ true)
  unfolding broadcast broadcast_pass
  broadcast_tells others s before after t n e h =
      let empty = wake_all-free s.object.waiters s.monitors n in
      (
        (broadcast_pass s).1,
        repeat-done broadcast_pass others s (ap is_empty empty),
        empty,
        ap (λ ws. ((wake_all ws s.monitors).monitors t).status.pending.signaled) e
            ∙ wake_all-tells before after t s.monitors n h,
      )
