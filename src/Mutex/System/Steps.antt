-- ===== src/Mutex/System/Steps.antt =====
-- What holds of each thread of the system of `Mutex.System`, and of the mutex.
use zthread.Base.{
  ℕ, ◌≡◌, refl, sym, ap, ◌∙◌, ◌⊎◌, inl, inr, Bool, true, false, not, ◌&&◌, ◌||◌, Option, none, some,
  List, [], ◌∷◌, arith, ◌==◌, Bool-cases, is_empty,
}
use zthread.Status.{State}
use zthread.Monitor.{Monitor}
use zthread.Waiters.{Monitors, update}
use zthread.Waiters.Passes.{wake_kept}
use zthread.Waiters.Laws.{deaf, notified, attempt-busy, attempt-ready}
use zthread.Waiters.Stay.{Shared}
use zthread.Mutex.{Mutex, owned_by, release_pass}
use zthread.Mutex.System.{System, Pc}
use zthread.Mutex.System.Listed.{listed, Distinct}

abbrev pub is_queued : Pc → Bool
is_queued Pc.entering = true
is_queued Pc.waiting = true
is_queued (Pc.reacquiring _) = true
is_queued (Pc.returned _) = true
is_queued _ = false

abbrev pub is_owning : Pc → Bool
is_owning Pc.owning = true
is_owning _ = false

abbrev pub is_releasing : Pc → Bool
is_releasing Pc.releasing = true
is_releasing _ = false

abbrev pub is_waiting : Pc → Bool
is_waiting Pc.waiting = true
is_waiting _ = false

-- A thread that has its own monitor's lock.
abbrev pub in_monitor : Pc → Bool
in_monitor Pc.entering = true
in_monitor (Pc.returned _) = true
in_monitor _ = false

abbrev pub is_bad : Pc → Bool
is_bad (Pc.reacquiring State.signaled) = false
is_bad (Pc.reacquiring _) = true
is_bad (Pc.returned State.signaled) = false
is_bad (Pc.returned _) = true
is_bad _ = false

-- A thread that owns the mutex, is giving it up, or has been signaled to take it.
abbrev pub has_token : Pc → Monitor → Bool
has_token Pc.owning m = true
has_token Pc.releasing m = true
has_token (Pc.reacquiring _) m = true
has_token (Pc.returned _) m = true
has_token Pc.waiting m = m.status.pending.signaled
has_token _ m = false

pub record Local (p : Pc) (m : Monitor) (in_list mine held empty : Bool) : Type 0 where
  pub queues : in_list ≡ is_queued p
  pub owns : mine ≡ is_owning p
  pub holds : has_token p m ≡ held
  pub quiet : m.status.pending.interrupted || m.status.pending.timedout ≡ false
  pub masked : m.status.mask.signaled ≡ true
  pub unsignaled : m.status.pending.signaled && not (is_waiting p) ≡ false
  pub locks : in_monitor p && not m.locked ≡ false
  pub returns : is_bad p ≡ false
  pub retries : is_releasing p && empty ≡ false

abbrev pub holds_token : Option ℕ → ℕ → Bool
holds_token none i = false
holds_token (some t) i = t == i

abbrev pub is_none : Option ℕ → Bool
is_none none = true
is_none (some _) = false

abbrev pub LocalAt : System → Option ℕ → ℕ → Type 0
LocalAt s holder i =
    Local (s.pc i) (s.monitors i) (listed i s.mutex.waiters) (owned_by i s.mutex)
      (holds_token holder i) (is_empty s.mutex.waiters)

-- At most one thread has the token; somebody has it while anybody is listed.
pub record Inv (s : System) : Type 0 where
  pub holder : Option ℕ
  pub locals : (i : ℕ) → LocalAt s holder i
  pub distinct : Distinct s.mutex.waiters
  pub awake : is_none holder && not (is_empty s.mutex.waiters) ≡ false

-- Where no waiter is deaf, a pass wakes the first that is not busy, if there is one.
abbrev Woken : Monitors → List ℕ → Option (Bool × Monitors) → Type 0
Woken ms ws r =
    (r ≡ some (false, ms))
    ⊎ ((u : ℕ) × (listed u ws ≡ true)
        × ((ms u).locked ≡ false)
        × (r ≡ some (true, update ms u (notified (ms u)))))

wake_kept-calm :
    (ws : List ℕ) (ms : Monitors)
    → ((i : ℕ) → deaf (ms i) ≡ false)
    → Woken ms ws (wake_kept [] ws ms)
unfolding wake_kept
wake_kept-calm [] ms c = inl refl
wake_kept-calm (t ∷ ws) ms c = elim (Bool-cases (ms t).locked) [
  | inl b ↦ elim (wake_kept-calm ws ms c) [
    | inl r ↦ inl (rw (attempt-busy t ms b) r)
    | inr (u, l, f, r) ↦ inr (u, ground (arith, l), f, rw (attempt-busy t ms b) r)
  ]
  | inr f ↦ inr (t, ground arith, f, rw (attempt-ready t ms (f, c t)) refl)
]

some_pair :
    {A B : Type 0} {a c : A} {b d : B}
    → ◌≡◌ {A = Option (A × B)} (some (a, b)) (some (c, d))
    → (c ≡ a) × (d ≡ b)
some_pair h = (cc, cc)

-- `release_pass` after its pass.
abbrev pass_of : Shared Mutex → Option (Bool × Monitors) → Option (Bool × Shared Mutex)
pass_of s r = elim r [
  | none ↦ none
  | some (woke, ms) ↦ some (woke || is_empty s.object.waiters, record s { monitors = ms })
]

pub release_pass-calm :
    (s : Shared Mutex) {done : Bool} {sh : Shared Mutex}
    → ((i : ℕ) → deaf (s.monitors i) ≡ false)
    → release_pass [] s ≡ some (done, sh)
    → ((done ≡ is_empty s.object.waiters) × (sh ≡ s))
      ⊎ ((u : ℕ) × (listed u s.object.waiters ≡ true)
          × ((s.monitors u).locked ≡ false)
          × (done ≡ true)
          × (sh ≡ record s { monitors = update s.monitors u (notified (s.monitors u)) }))
unfolding release_pass
release_pass-calm s c h = elim (wake_kept-calm s.object.waiters s.monitors c) [
  | inl r ↦ inl (some_pair (sym (ap (pass_of s) r) ∙ h))
  | inr (u, l, f, r) ↦ let (a, b) = some_pair (sym (ap (pass_of s) r) ∙ h) in inr (u, l, f, a, b)
]
