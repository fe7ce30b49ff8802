-- ===== src/Waiters/Laws.antt =====
-- What one attempt and one pass do, from the state of the waiters' monitors.
use mathlib.Core.Path.{fun_ext}
use zthread.Base.{
  ℕ, suc, ◌≡◌, refl, ap, ◌⊎◌, inl, inr, Bool, true, false, ◌&&◌, List, [], ◌∷◌, ◌++◌, arith,
  Bool-cases, if◌then◌else◌,
}
use zthread.Monitor.{Monitor}
use zthread.Monitor
use zthread.Waiters.{Monitors, Attempt, busy, failed, woke, attempt, update}
use zthread.Waiters.Passes.{skip, wake_first, wake_all}

-- A monitor whose lock is held by its thread or by another; one that refuses a notification; and
-- one that takes it.
abbrev pub IsBusy : Monitor → Type 0
IsBusy m = m.locked ≡ true

abbrev pub deaf : Monitor → Bool
deaf m = m.status.pending.interrupted && m.status.mask.interrupted

abbrev pub IsDeaf : Monitor → Type 0
IsDeaf m = (m.locked ≡ false) × (deaf m ≡ true)

abbrev pub IsReady : Monitor → Type 0
IsReady m = (m.locked ≡ false) × (deaf m ≡ false)

-- A monitor after a notification that it took.
abbrev pub notified : Monitor → Monitor
notified m = record m {
  status = record (m.status) { pending = record (m.status.pending) { signaled = true } };
  signals = if m.waiting then suc m.signals else m.signals;
}

abbrev tried : Monitor → Monitor
tried m = (Monitor.try_acquire m).1

try_busy : (m : Monitor) → IsBusy m → (Monitor.try_acquire m).0 ≡ false
unfolding Monitor.try_acquire
try_busy m h = ground arith

try_deaf :
    (m : Monitor)
    → IsDeaf m
    → ((Monitor.try_acquire m).0 ≡ true)
      × ((Monitor.notify (tried m)).0 ≡ false)
      × (Monitor.release (Monitor.notify (tried m)).1 ≡ m)
unfolding Monitor.try_acquire Monitor.notify Monitor.release
try_deaf m h = ground arith

try_ready :
    (m : Monitor)
    → IsReady m
    → ((Monitor.try_acquire m).0 ≡ true)
      × ((Monitor.notify (tried m)).0 ≡ true)
      × (Monitor.release (Monitor.notify (tried m)).1 ≡ notified m)
unfolding Monitor.try_acquire Monitor.notify Monitor.release
try_ready m h = ground arith

update_self : (t : ℕ) (ms : Monitors) → update ms t (ms t) ≡ ms
update_self t ms = fun_ext λ u. grind (arith, same t u)
  where
    same : (t u : ℕ) → t ≡ u → ms t ≡ ms u
    same t u e = ap ms e

pub attempt-busy : (t : ℕ) (ms : Monitors) → IsBusy (ms t) → attempt t ms ≡ (busy, ms)
unfolding attempt
attempt-busy t ms h = rw (try_busy (ms t) h)

pub attempt-deaf : (t : ℕ) (ms : Monitors) → IsDeaf (ms t) → attempt t ms ≡ (failed, ms)
unfolding attempt
attempt-deaf t ms h =
    let (a, b, c) = try_deaf (ms t) h in
    rw (a, b, c) (ap (λ (m : Monitors). (Attempt.failed, m)) (update_self t ms))

pub attempt-ready :
    (t : ℕ) (ms : Monitors) → IsReady (ms t) → attempt t ms ≡ (woke, update ms t (notified (ms t)))
unfolding attempt
attempt-ready t ms h = let (a, b, c) = try_ready (ms t) h in rw (a, b, c)

-- Each of the listed threads is busy or deaf.
abbrev pub NoneReady : Monitors → List ℕ → Type 0
NoneReady ms [] = Unit
NoneReady ms (t ∷ ts) = (IsBusy (ms t) ⊎ IsDeaf (ms t)) × NoneReady ms ts

abbrev pub NoneBusy : Monitors → List ℕ → Type 0
NoneBusy ms [] = Unit
NoneBusy ms (t ∷ ts) = ((ms t).locked ≡ false) × NoneBusy ms ts

-- The busy threads of a list.
unfoldable pub busy_of : Monitors → List ℕ → List ℕ
busy_of ms [] = []
busy_of ms (t ∷ ts) = if (ms t).locked then t ∷ busy_of ms ts else busy_of ms ts

-- A pass goes by the busy and the deaf, keeping the busy, to the first ready waiter, and wakes it.
pub wake_first-ready :
    (before after : List ℕ) (t : ℕ) (ms : Monitors)
    → NoneReady ms before
    → IsReady (ms t)
    → wake_first (before ++ t ∷ after) ms ≡ record {
      returned = true;
      waiters = busy_of ms before ++ after;
      monitors = update ms t (notified (ms t));
    }
unfolding wake_first busy_of
wake_first-ready [] after t ms n r = rw (attempt-ready t ms r)
wake_first-ready (u ∷ before) after t ms (inl b, n) r =
    rw (attempt-busy u ms b, wake_first, b) (ap (skip u) (wake_first-ready before after t ms n r))
wake_first-ready (u ∷ before) after t ms (inr d, n) r =
    rw (attempt-deaf u ms d, wake_first, d.0) (wake_first-ready before after t ms n r)

-- Where no waiter is ready, a pass wakes none and keeps the busy.
pub wake_first-none :
    (ts : List ℕ) (ms : Monitors)
    → NoneReady ms ts
    → wake_first ts ms ≡ record { returned = false; waiters = busy_of ms ts; monitors = ms }
unfolding wake_first busy_of
wake_first-none [] ms n = refl
wake_first-none (u ∷ ts) ms (inl b, n) =
    rw (attempt-busy u ms b, wake_first, b) (ap (skip u) (wake_first-none ts ms n))
wake_first-none (u ∷ ts) ms (inr d, n) =
    rw (attempt-deaf u ms d, wake_first, d.0) (wake_first-none ts ms n)

-- A list without busy waiters has a first ready one, or none is ready.
pub IsReady-cases :
    (ts : List ℕ) (ms : Monitors)
    → NoneBusy ms ts
    → (NoneReady ms ts × (busy_of ms ts ≡ []))
      ⊎ ((before : List ℕ) × (t : ℕ) × (after : List ℕ) × (ts ≡ before ++ t ∷ after)
          × NoneReady ms before
          × IsReady (ms t))
unfolding busy_of
IsReady-cases [] ms n = inl (tt, refl)
IsReady-cases (u ∷ ts) ms n = elim (Bool-cases (deaf (ms u))) [
  | inr r ↦ inr ([], u, ts, refl, tt, (n.0, r))
  | inl d ↦ elim (IsReady-cases ts ms n.1) [
    | inl (a, b) ↦ inl ((inr (n.0, d), a), rw n.0 b)
    | inr (before, t, after, e, a, r) ↦
        inr (u ∷ before, t, after, ap (◌∷◌ u) e, (inr (n.0, d), a), r)
  ]
]

pub notified-free :
    (ms : Monitors) (u : ℕ)
    → ((t : ℕ) → (ms t).locked ≡ false)
    → (t : ℕ) → (update ms u (notified (ms u)) t).locked ≡ false
notified-free ms u n t = ground (arith, n t, n u)

-- Where no monitor is busy, a broadcast's pass empties the list.
pub wake_all-free :
    (ts : List ℕ) (ms : Monitors)
    → ((t : ℕ) → (ms t).locked ≡ false)
    → (wake_all ts ms).waiters ≡ []
unfolding wake_all
wake_all-free [] ms n = refl
wake_all-free (u ∷ ts) ms n = elim (Bool-cases (deaf (ms u))) [
  | inl d ↦ rw (attempt-deaf u ms (n u, d), wake_all) (wake_all-free ts ms n)
  | inr r ↦
      rw (attempt-ready u ms (n u, r), wake_all)
        (wake_all-free ts (update ms u (notified (ms u))) (notified-free ms u n))
]
