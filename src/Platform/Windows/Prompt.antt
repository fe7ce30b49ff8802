-- ===== src/Platform/Windows/Prompt.antt =====
-- src/win32/Monitor.cxx: the event.
use zthread.Base.{
  ℕ, ◌≡◌, refl, sym, ap, ◌∙◌, inl, inr, Bool, true, false, not, ◌&&◌, ◌||◌, some, List, [], ◌∷◌,
  ◌==◌, arith, Bool-cases,
}
use zthread.Status.{State, anything}
use zthread.Status
use zthread.Status.Order.{reported, next-reported}
use zthread.Monitor.{Call, interrupts, cancels, notifies, tests_interrupted, tests_canceled}
use zthread.Platform.Windows.{
  Monitor, interrupt, cancel, notify, perform, perform_all, wait_end, wait, set_status, set_event,
}
use zthread.Platform.Windows.Same.{asleep, masked-push, wait_cases}

-- The calls that wake: no test of the monitor clears a flag.
abbrev pub Wakes : Call → Type 0
Wakes (interrupts caller) = Unit {0}
Wakes cancels = Unit {0}
Wakes notifies = Unit {0}
Wakes tests_interrupted = ⊥
Wakes (tests_canceled caller) = ⊥

abbrev pub AllWake : List Call → Type 0
AllWake [] = Unit {0}
AllWake (c ∷ cs) = Wakes c × AllWake cs

-- A push keeps what is pending, and the mask.
push-pending :
    (f : Status.Flags) (s : Status.Status)
    → (Status.pending anything s ≡ true → Status.pending anything (Status.push f s) ≡ true)
      × ((Status.push f s).mask ≡ s.mask)
unfolding Status.pending Status.push
push-pending f s = (λ h. ground arith, refl)

push-interrupted :
    (s : Status.Status)
    → Status.masked Status.only_interrupted s ≡ false
    → Status.pending anything (Status.push Status.only_interrupted s) ≡ true
unfolding Status.pending Status.push Status.masked
push-interrupted s h = ground arith

push-signaled :
    (s : Status.Status)
    → s.mask.signaled ≡ true
    → Status.pending anything (Status.push Status.only_signaled s) ≡ true
unfolding Status.pending Status.push
push-signaled s h = ground arith

push-timedout :
    (s : Status.Status)
    → s.mask.timedout ≡ true
    → Status.pending anything (Status.push Status.only_timedout s) ≡ true
unfolding Status.pending Status.push
push-timedout s h = ground arith

-- The event is set only for a state of interest, and the mask is the given one.
abbrev Announced : Status.Flags → Monitor → Type 0
Announced k m = (m.event ≡ true → Status.pending anything m.status ≡ true) × (m.status.mask ≡ k)

unmasked : (b c : Bool) → (b && not c) ≡ true → c ≡ false
unmasked b c h = ground arith

module _ (k : Status.Flags) where
  -- The end of `interrupt` and of `cancel`, for a status from which nothing is taken away.
  raised :
      (m : Monitor) (s : Status.Status)
      → Announced k m
      → (Status.pending anything m.status ≡ true → Status.pending anything s ≡ true)
      → s.mask ≡ m.status.mask
      → let pushed = Status.push Status.only_interrupted s in
        Announced k (set_status pushed m)
        × ((m.waiting && not (Status.masked Status.only_interrupted pushed)) ≡ true
            → Announced k (set_event (set_status pushed m)))
  raised m s (a, e) keeps same =
      let (more, mask) = push-pending Status.only_interrupted s in
      (
        (λ h. more (keeps (a h)), mask ∙ same ∙ e),
        λ q. (
          λ _. push-interrupted s (
              sym (masked-push Status.only_interrupted Status.only_interrupted s)
              ∙ unmasked m.waiting _ q),
          mask ∙ same ∙ e,
        ),
      )

  interrupt-Announced :
      (caller : ℕ) (m : Monitor) → Announced k m → Announced k (interrupt caller m).1
  unfolding interrupt
  interrupt-Announced caller m a =
      let (quiet, woken) = raised m m.status a (λ h. h) refl in
      elim (Bool-cases (Status.pending Status.only_interrupted m.status)) [
        | inl p ↦ rw p a
        | inr p ↦
            elim (Bool-cases (
              m.waiting
              && not (
                  Status.masked Status.only_interrupted
                    (Status.push Status.only_interrupted m.status)))) [
                      | inl q ↦ rw (p, q) (woken q)
                      | inr q ↦ rw (p, q) quiet
                    ]
      ]

  cancel-Announced : (m : Monitor) → Announced k m → Announced k (cancel m).1
  unfolding cancel
  cancel-Announced m (a, e) =
      let canceled = Status.push Status.only_canceled m.status in
      let (more, mask) = push-pending Status.only_canceled m.status in
      let (quiet, woken) = raised m canceled (a, e) more mask in
      elim (Bool-cases (Status.pending Status.only_interrupted m.status)) [
        | inl p ↦ rw p (λ h. more (a h), mask ∙ e)
        | inr p ↦
            elim (Bool-cases (
              m.waiting
              && not (
                  Status.masked Status.only_interrupted
                    (Status.push Status.only_interrupted canceled)))) [
                      | inl q ↦ rw (p, q) (woken q)
                      | inr q ↦ rw (p, q) quiet
                    ]
      ]

  module _ (listens : k.signaled ≡ true) where
    notify-Announced : (m : Monitor) → Announced k m → Announced k (notify m).1
    unfolding notify
    notify-Announced m (a, e) =
        let (more, mask) = push-pending Status.only_signaled m.status in
        elim (Bool-cases (Status.pending Status.only_interrupted m.status)) [
          | inl p ↦ rw p (a, e)
          | inr p ↦ elim (Bool-cases m.waiting) [
            | inl q ↦
                rw (p, q) (λ _. push-signaled m.status (ap (λ f. f.signaled) e ∙ listens), mask ∙ e)
            | inr q ↦ rw (p, q) (λ h. more (a h), mask ∙ e)
          ]
        ]

    perform-Announced :
        (c : Call) (m : Monitor) → Wakes c → Announced k m → Announced k (perform c m).1
    unfolding perform
    perform-Announced (interrupts caller) m w a = interrupt-Announced caller m a
    perform-Announced cancels m w a = cancel-Announced m a
    perform-Announced notifies m w a = notify-Announced m a
    perform-Announced tests_interrupted m w a = absurd w
    perform-Announced (tests_canceled caller) m w a = absurd w

    perform_all-Announced :
        (cs : List Call) (m : Monitor) → AllWake cs → Announced k m → Announced k (perform_all cs m)
    unfolding perform_all
    perform_all-Announced [] m w a = a
    perform_all-Announced (c ∷ cs) m w a =
        perform_all-Announced cs (perform c m).1 w.1 (perform-Announced c m w.0 a)

-- What is pending at the end.
wait_end-reported :
    (late : Bool) (m : Monitor)
    → (late ≡ true → m.status.mask.timedout ≡ true)
    → (late || m.event ≡ true)
    → (m.event ≡ true → Status.pending anything m.status ≡ true)
    → reported (wait_end late m).0 ≡ true
unfolding wait_end
wait_end-reported true m t h a =
    (next-reported (Status.push Status.only_timedout m.status)).0 ∙ push-timedout m.status (t refl)
wait_end-reported false m t h a = (next-reported m.status).0 ∙ a h

-- Where the thread listens to signals, and to timeouts if it waits with one, and its event is not set
-- when it begins to wait: whatever interruptions, cancellations and notifications come meanwhile,
-- `wait` comes back with SIGNALED, TIMEDOUT or INTERRUPTED, never with an invalid state.
pub windows_wait_reports :
    (self ms : ℕ) (cs : List Call) (over : Bool) (m : Monitor) {s : State} {m' : Monitor}
    → m.status.mask.signaled ≡ true
    → ((over && not (ms == 0)) ≡ true → m.status.mask.timedout ≡ true)
    → m.event ≡ false
    → AllWake cs
    → wait self ms cs over m ≡ some (s, m')
    → reported s ≡ true
windows_wait_reports self ms cs over m listens timed unset w h =
    elim (wait_cases self ms cs over m h) [
      | inl (p, e) ↦ sym (ap (λ x. reported x.0) e) ∙ (next-reported m.status).0 ∙ p
      | inr (p, q, e) ↦
          let start : Announced m.status.mask (asleep self m) = (λ t. cc, refl) in
          let (a, mask) = perform_all-Announced m.status.mask listens cs (asleep self m) w start in
          sym (ap (λ x. reported x.0) e)
          ∙ wait_end-reported (over && not (ms == 0)) (perform_all cs (asleep self m))
              (λ t. ap (λ f. f.timedout) mask ∙ timed t) q a
    ]
