-- ===== src/RecursiveMutex/Handover.antt =====
-- `RecursiveMutexImpl::release` of src/RecursiveMutexImpl.cxx: the last release of the owner.
use zthread.Base.{ℕ, ◌≡◌, ap, ◌∙◌, true, false, none, some, List, ◌∷◌, ◌++◌, arith, is_empty}
use zthread.Exceptions.{Exception, ok, throw}
use zthread.Waiters.{update}
use zthread.Waiters.Passes.{wake_kept}
use zthread.Waiters.Stay.{Shared, on_object}
use zthread.Waiters.Laws.{IsReady, notified}
use zthread.Waiters.Kept.{AllBusy, wake_kept-ready, wake_kept-empty}
use zthread.RecursiveMutex.{
  RecursiveMutex, Round, after_pass, succeed, decrement, owned_by, release_pass, release_loop,
  release,
}

abbrev pub freed : Shared RecursiveMutex → Shared RecursiveMutex
freed s = on_object (λ o. record o { owner = none; count = 0 }) s

pass-ready :
    (r : Round) (s : Shared RecursiveMutex) (before after : List ℕ) (t : ℕ)
    → s.object.waiters ≡ before ++ t ∷ after
    → AllBusy s.monitors before
    → IsReady (s.monitors t)
    → release_pass r.between s
      ≡ some (true, record s { monitors = update s.monitors t (notified (s.monitors t)) })
unfolding release_pass
pass-ready r s before after t e b ready = rw (
  ap (λ ws. wake_kept r.between ws s.monitors) e
      ∙ wake_kept-ready r.between before after t s.monitors b ready,
  release_pass,
)

pass-empty :
    (r : Round) (s : Shared RecursiveMutex)
    → is_empty s.object.waiters ≡ true
    → release_pass r.between s ≡ some (true, s)
unfolding release_pass
pass-empty r s e = rw (wake_kept-empty r.between s.object.waiters s.monitors e, release_pass, e)

-- The last release of the owner, where every waiter before the first one that is not busy stays busy
-- and that one is ready, returns in its first round: the mutex is free with count 0, that waiter
-- holds the signal, no other monitor is touched, and the list is as it was. With no waiters it
-- returns too, and touches no monitor. A release by another thread is refused and changes nothing.
pub release_last :
    (self : ℕ) (r : Round) (rs : List Round) (s : Shared RecursiveMutex) (before after : List ℕ)
    (t : ℕ)
    → (owned_by self s.object ≡ true
        → s.object.count ≡ 1
        → s.object.waiters ≡ before ++ t ∷ after
        → AllBusy s.monitors before
        → IsReady (s.monitors t)
        → release self (r ∷ rs) s
          ≡ some (
            ok tt,
            record (freed s) { monitors = update s.monitors t (notified (s.monitors t)) },
          ))
      × (owned_by self s.object ≡ true
          → s.object.count ≡ 1
          → is_empty s.object.waiters ≡ true
          → release self (r ∷ rs) s ≡ some (ok tt, freed s))
      × (owned_by self s.object ≡ false
          → release self (r ∷ rs) s ≡ some (throw Exception.invalid_op, s))
unfolding release release_loop
release_last self r rs s before after t = (
  λ own c e b ready.
      let z : decrement s.object.count ≡ 0 = omega arith in
      rw (own, z)
        (ap (λ x. succeed (after_pass (λ s'. release_loop rs (r.others s')) x))
          (pass-ready r (freed s) before after t e b ready)),
  λ own c e.
      let z : decrement s.object.count ≡ 0 = omega arith in
      rw (own, z)
        (ap (λ x. succeed (after_pass (λ s'. release_loop rs (r.others s')) x))
          (pass-empty r (freed s) e)),
  λ own. rw own,
)
