-- ===== src/Waiters/Broadcast.antt =====
-- A pass of `broadcast` over the waiters, where no thread holds a monitor's lock.
use zthread.Base.{ℕ, ◌≡◌, ap, ◌∙◌, inl, inr, true, false, List, [], ◌∷◌, ◌++◌, Bool-cases, arith}
use zthread.Monitor.{Monitor}
use zthread.Waiters.{Monitors, update}
use zthread.Waiters.Passes.{wake_all}
use zthread.Waiters.Laws.{deaf, notified, notified-free, attempt-deaf, attempt-ready}

abbrev pub Told : Monitor → Type 0
Told m = m.status.pending.signaled ≡ true

abbrev pub AllFree : Monitors → Type 0
AllFree ms = (t : ℕ) → (ms t).locked ≡ false

pub Told-update : (ms : Monitors) (u t : ℕ) → Told (ms t) → Told (update ms u (notified (ms u)) t)
Told-update ms u t h = ground arith

pub deaf-update :
    (ms : Monitors) (u t : ℕ) → deaf (ms t) ≡ false → deaf (update ms u (notified (ms u)) t) ≡ false
deaf-update ms u t h = grind (arith, same)
  where
    same : u ≡ t → deaf (ms u) ≡ false
    same e = ap (λ x. deaf (ms x)) e ∙ h

pub notified-Told : (ms : Monitors) (t : ℕ) → Told (update ms t (notified (ms t)) t)
notified-Told ms t = ground arith

-- A pass of `broadcast` takes no signal away.
pub wake_all-keeps :
    (ts : List ℕ) (ms : Monitors) (t : ℕ)
    → AllFree ms
    → Told (ms t)
    → Told ((wake_all ts ms).monitors t)
unfolding wake_all
wake_all-keeps [] ms t n h = h
wake_all-keeps (u ∷ ts) ms t n h = elim (Bool-cases (deaf (ms u))) [
  | inl d ↦ rw (attempt-deaf u ms (n u, d), wake_all) (wake_all-keeps ts ms t n h)
  | inr r ↦
      rw (attempt-ready u ms (n u, r), wake_all)
        (wake_all-keeps ts (update ms u (notified (ms u))) t (notified-free ms u n)
          (Told-update ms u t h))
]

pub wake_all-tells :
    (before after : List ℕ) (t : ℕ) (ms : Monitors)
    → AllFree ms
    → deaf (ms t) ≡ false
    → Told ((wake_all (before ++ t ∷ after) ms).monitors t)
unfolding wake_all
wake_all-tells [] after t ms n h =
    rw (attempt-ready t ms (n t, h), wake_all)
      (wake_all-keeps after (update ms t (notified (ms t))) t (notified-free ms t n)
        (notified-Told ms t))
wake_all-tells (u ∷ before) after t ms n h = elim (Bool-cases (deaf (ms u))) [
  | inl d ↦ rw (attempt-deaf u ms (n u, d), wake_all) (wake_all-tells before after t ms n h)
  | inr r ↦
      rw (attempt-ready u ms (n u, r), wake_all)
        (wake_all-tells before after t (update ms u (notified (ms u))) (notified-free ms u n)
          (deaf-update ms u t h))
]

pub wake_all-AllFree :
    (ts : List ℕ) (ms : Monitors) → AllFree ms → AllFree (wake_all ts ms).monitors
unfolding wake_all
wake_all-AllFree [] ms n = n
wake_all-AllFree (u ∷ ts) ms n = elim (Bool-cases (deaf (ms u))) [
  | inl d ↦ rw (attempt-deaf u ms (n u, d), wake_all) (wake_all-AllFree ts ms n)
  | inr r ↦
      rw (attempt-ready u ms (n u, r), wake_all)
        (wake_all-AllFree ts (update ms u (notified (ms u))) (notified-free ms u n))
]
