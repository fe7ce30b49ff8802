-- ===== src/Waiters/Kept.antt =====
-- One pass of `MutexImpl::release` and `RecursiveMutexImpl::release` over the waiters.
use zthread.Base.{ℕ, ◌≡◌, refl, true, false, none, some, List, [], ◌∷◌, ◌++◌, is_empty}
use zthread.Waiters.{Monitors, update}
use zthread.Waiters.Passes.{wake_kept}
use zthread.Waiters.Laws.{
  IsBusy, IsDeaf, IsReady, notified, attempt-busy, attempt-deaf, attempt-ready,
}

abbrev pub AllBusy : Monitors → List ℕ → Type 0
AllBusy ms [] = Unit {0}
AllBusy ms (t ∷ ts) = IsBusy (ms t) × AllBusy ms ts

-- A pass goes by the busy waiters to the first that is not, and wakes it if it is ready.
pub wake_kept-ready :
    (es : List (Monitors → Monitors)) (before after : List ℕ) (t : ℕ) (ms : Monitors)
    → AllBusy ms before
    → IsReady (ms t)
    → wake_kept es (before ++ t ∷ after) ms ≡ some (true, update ms t (notified (ms t)))
unfolding wake_kept
wake_kept-ready [] [] after t ms n r = rw (attempt-ready t ms r)
wake_kept-ready (e ∷ es) [] after t ms n r = rw (attempt-ready t ms r)
wake_kept-ready [] (u ∷ before) after t ms (b, n) r =
    rw (attempt-busy u ms b) (wake_kept-ready [] before after t ms n r)
wake_kept-ready (e ∷ es) (u ∷ before) after t ms (b, n) r =
    rw (attempt-busy u ms b) (wake_kept-ready (e ∷ es) before after t ms n r)

pub wake_kept-empty :
    (es : List (Monitors → Monitors)) (ts : List ℕ) (ms : Monitors)
    → is_empty ts ≡ true
    → wake_kept es ts ms ≡ some (false, ms)
unfolding wake_kept
wake_kept-empty es [] ms h = refl
wake_kept-empty es (t ∷ ts) ms h = cc

-- What other threads do keeps thread `t` deaf.
abbrev pub KeepDeaf : ℕ → List (Monitors → Monitors) → Type 0
KeepDeaf t [] = Unit {0}
KeepDeaf t (e ∷ es) = ((ms : Monitors) → IsDeaf (ms t) → IsDeaf (e ms t)) × KeepDeaf t es

pub wake_kept-deaf :
    (es : List (Monitors → Monitors)) (t : ℕ) (after : List ℕ) (ms : Monitors)
    → KeepDeaf t es
    → IsDeaf (ms t)
    → wake_kept es (t ∷ after) ms ≡ none
unfolding wake_kept
wake_kept-deaf [] t after ms k d = rw (attempt-deaf t ms d)
wake_kept-deaf (e ∷ es) t after ms (k, ks) d =
    rw (attempt-deaf t ms d) (wake_kept-deaf es t after (e ms) ks (k ms d))
