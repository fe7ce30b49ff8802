-- ===== src/Mutex/Release.antt =====
-- `MutexImpl::release` of src/MutexImpl.h.
use zthread.Base.{ℕ, ◌≡◌, ap, ◌∙◌, true, false, none, some, List, [], ◌∷◌, ◌++◌, is_empty}
use zthread.Exceptions.{Exception, ok, throw}
use zthread.Waiters.{update}
use zthread.Waiters.Passes.{wake_kept}
use zthread.Waiters.Stay.{Shared, on_object}
use zthread.Waiters.Laws.{IsDeaf, IsReady, notified}
use zthread.Waiters.Kept.{AllBusy, KeepDeaf, wake_kept-ready, wake_kept-empty, wake_kept-deaf}
use zthread.Mutex.{Mutex, Round, owned_by, release_pass, release_loop, release}

-- The mutex as its owner gives it up.
abbrev pub freed : Shared Mutex → Shared Mutex
freed s = on_object (λ o. record o { owner = none }) s

-- A release by the owner, where every waiter before the first one that is not busy stays busy and
-- that one is ready, returns in its first round: the mutex is free, that waiter holds the signal, no
-- other monitor is touched, and the list is as it was, so that nobody gets in before it.
pub release_hands_over :
    (self : ℕ) (r : Round) (rs : List Round) (s : Shared Mutex) (before after : List ℕ) (t : ℕ)
    → owned_by self s.object ≡ true
    → s.object.waiters ≡ before ++ t ∷ after
    → AllBusy s.monitors before
    → IsReady (s.monitors t)
    → release self (r ∷ rs) s
      ≡ some (ok tt, record (freed s) { monitors = update s.monitors t (notified (s.monitors t)) })
unfolding release release_loop release_pass
release_hands_over self r rs s before after t own e b ready = rw (
  own,
  ap (λ ws. wake_kept r.between ws s.monitors) e
      ∙ wake_kept-ready r.between before after t s.monitors b ready,
)

-- A release with no waiters frees the mutex and touches nothing else; one by another thread than the
-- owner is refused, and changes nothing.
pub release_alone :
    (self : ℕ) (r : Round) (rs : List Round) (s : Shared Mutex)
    → (owned_by self s.object ≡ true
        → is_empty s.object.waiters ≡ true
        → release self (r ∷ rs) s ≡ some (ok tt, freed s))
      × (owned_by self s.object ≡ false
          → release self (r ∷ rs) s ≡ some (throw Exception.invalid_op, s))
unfolding release release_loop release_pass
release_alone self r rs s =
    (λ h e. rw (h, wake_kept-empty r.between s.object.waiters s.monitors e, e), λ h. rw h)

abbrev pub AllKeepDeaf : ℕ → List Round → Type 0
AllKeepDeaf t [] = Unit {0}
AllKeepDeaf t (r ∷ rs) = KeepDeaf t r.between × AllKeepDeaf t rs

-- The waiter is not erased when its notification fails, and is tried again at once: while the first
-- waiter has an interruption pending and its monitor is free, the loop never comes to its end, for
-- any number of attempts, and the mutex's own lock stays held.
pub release_spins :
    (self : ℕ) (rs : List Round) (s : Shared Mutex) (t : ℕ) (after : List ℕ)
    → owned_by self s.object ≡ true
    → s.object.waiters ≡ t ∷ after
    → AllKeepDeaf t rs
    → IsDeaf (s.monitors t)
    → release self rs s ≡ none
unfolding release release_loop release_pass
release_spins self [] s t after own e k d = rw own
release_spins self (r ∷ rs) s t after own e k d = rw (
  own,
  ap (λ ws. wake_kept r.between ws s.monitors) e
      ∙ wake_kept-deaf r.between t after s.monitors k.0 d,
)
