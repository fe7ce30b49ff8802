-- ===== src/Monitor/Wakeups.antt =====
-- `Monitor::wait` of src/posix/Monitor.cxx: that it returns, and what it returns from the wakeups.
use zthread.Base.{
  ℕ, ◌+◌, ◌*◌, ◌/◌, ◌^◌, ◌<◌, ◌≡◌, refl, ap, ◌∙◌, ◌⊎◌, inl, inr, Bool, true, false, not, ◌&&◌, ◌||◌,
  Option, some, List, [], ◌∷◌, ◌++◌, arith, Bool-cases,
}
use zthread.Status.{State, anything}
use zthread.Status
use zthread.Status.Order.{reported, next-reported}
use zthread.Monitor.{
  Monitor, Call, interrupts, cancels, notifies, tests_interrupted, tests_canceled, notify, perform,
  perform_all,
}
use zthread.Monitor.Wait.{
  Clock, Timespec, Wakeup, Errno, ok, etimedout, is_eintr, is_etimedout, deadline, wait_loop,
  wait_end, wait,
}
use zthread.Monitor.Inversion.{
  wait-pending, wait-blocked, perform_all_inv, wait_loop_inv, perform_all-append, blocked, target,
  again,
}

-- Some return of the condition wait is no EINTR.
abbrev pub Wakes : List Wakeup → Type 0
Wakes [] = ⊥
Wakes (w ∷ ws) = (is_eintr w.errno ≡ false) ⊎ Wakes ws

wait_loop_returns :
    (ws : List Wakeup) (m : Monitor)
    → Wakes ws
    → (e : Errno) × (w : Monitor) × (wait_loop ws m ≡ some (e, w))
unfolding wait_loop
wait_loop_returns [] m h = absurd h
wait_loop_returns (w ∷ ws) m h = elim (Bool-cases (again w (perform_all w.calls m))) [
  | inr c ↦ (w.errno, perform_all w.calls m, rw c)
  | inl c ↦ rw c (wait_loop_returns ws (perform_all w.calls m) (later h c))
]
  where
    later : Wakes (w ∷ ws) → again w (perform_all w.calls m) ≡ true → Wakes ws
    later (inl e) c = ground arith
    later (inr l) c = l

-- No return of the condition wait is spurious: each that is a success finds a state of interest.
abbrev pub Prompt : Monitor → List Wakeup → Type 0
Prompt m [] = Unit
Prompt m (w ∷ ws) =
    ((is_eintr w.errno || is_etimedout w.errno ≡ false)
      → Status.pending anything (perform_all w.calls m).status ≡ true)
    × Prompt (perform_all w.calls m) ws

-- What the loop leaves, if it is left: a state of interest, or a timeout.
wait_loop-Prompt :
    (ws : List Wakeup) (m : Monitor) {e : Errno} {w : Monitor}
    → Prompt m ws
    → wait_loop ws m ≡ some (e, w)
    → is_etimedout e || Status.pending anything w.status ≡ true
unfolding wait_loop
wait_loop-Prompt [] m p h = cc
wait_loop-Prompt (w ∷ ws) m p h = elim (Bool-cases (again w (perform_all w.calls m))) [
  | inl c ↦ wait_loop-Prompt ws (perform_all w.calls m) p.1 (rw c at h)
  | inr c ↦ ground (arith, p.0)
]

perform-mask :
    (f : Status.Flags) (c : Call) (m : Monitor) → m.status.mask ≡ f → (perform c m).status.mask ≡ f
unfolding perform
perform-mask f (interrupts t) m h = ground arith
perform-mask f cancels m h = ground arith
perform-mask f notifies m h = ground arith
perform-mask f tests_interrupted m h = ground arith
perform-mask f (tests_canceled t) m h = ground arith

wait_end-reported :
    (e : Errno) (w : Monitor)
    → w.status.mask.timedout ≡ true
    → is_etimedout e || Status.pending anything w.status ≡ true
    → (reported (wait_end e w).0 ≡ true)
      × ((wait_end e w).1.locked ≡ true)
      × ((wait_end e w).1.waiting ≡ false)
unfolding wait_end Status.pending
wait_end-reported etimedout w t h = ground arith
wait_end-reported e w t h = ground arith

-- `wait` returns, with a state that is no INVALID, if timeouts are of interest, the condition wait
-- comes back at least once with another status than EINTR, and it never comes back with success
-- while nothing of interest is pending. Then the external lock is held as it was, and the waiting
-- flag is down.
pub wait_returns :
    (self ms : ℕ) (clock : Clock) (ws : Option Timespec → List Wakeup) (m : Monitor)
    → m.status.mask.timedout ≡ true
    → m.locked ≡ true
    → m.waiting ≡ false
    → Wakes (ws (target clock ms))
    → Prompt (blocked self m) (ws (target clock ms))
    → (s : State) × (m' : Monitor) × (wait self clock ms ws m ≡ some (s, m'))
      × (reported s ≡ true)
      × (m'.locked ≡ true)
      × (m'.waiting ≡ false)
wait_returns self ms clock ws m t l q some_wake prompt =
    elim (Bool-cases (Status.pending anything m.status)) [
      | inl p ↦ (_, _, wait-pending self ms clock ws m p refl, (next-reported m.status).0 ∙ p, l, q)
      | inr p ↦
          let (e, w, r) = wait_loop_returns (ws (target clock ms)) (blocked self m) some_wake in
          let (a, b, c) = wait_end-reported e w (kept e w r) (wait_loop-Prompt _ _ prompt r) in
          (_, _, wait-blocked self ms clock ws m p r refl, a, b, c)
    ]
  where
    kept :
        (e : Errno) (w : Monitor)
        → wait_loop (ws (target clock ms)) (blocked self m) ≡ some (e, w)
        → w.status.mask.timedout ≡ true
    kept e w r =
        ap (λ (f : Status.Flags). f.timedout)
          (wait_loop_inv (λ x. x.status.mask ≡ m.status.mask) (perform-mask m.status.mask) _ _ refl
            r)
        ∙ t

first :
    (e : Errno) (calls : List Call) (rest : List Wakeup) (m : Monitor)
    → is_eintr e && not (Status.pending anything (perform_all calls m).status) ≡ false
    → wait_loop (record { calls = calls; errno = e } ∷ rest) m ≡ some (e, perform_all calls m)
unfolding wait_loop
first e calls rest m h = rw h

wait_end-invalid :
    (w : Monitor) → Status.pending anything w.status ≡ false → (wait_end ok w).0 ≡ State.invalid
unfolding wait_end Status.pending Status.next
wait_end-invalid w h = ground arith

-- POSIX allows a condition wait to return with success for no reason, and the loop then stops too:
-- `wait` of a thread with nothing of interest pending comes back from such a wakeup with INVALID
-- (where the assertions are compiled in, one of them fails).
pub wait_spurious :
    (self ms : ℕ) (clock : Clock) (ws : Option Timespec → List Wakeup) (m : Monitor)
    (calls : List Call) (rest : List Wakeup)
    → Status.pending anything m.status ≡ false
    → ws (target clock ms) ≡ record { calls = calls; errno = ok } ∷ rest
    → Status.pending anything (perform_all calls (blocked self m)).status ≡ false
    → (m' : Monitor) × (wait self clock ms ws m ≡ some (State.invalid, m'))
wait_spurious self ms clock ws m calls rest p r q = (
  _,
  wait-blocked self ms clock ws m p
      (ap (λ l. wait_loop l (blocked self m)) r ∙ first ok calls rest (blocked self m) refl)
      (wait_end-invalid _ q),
)

notify-signals :
    (m : Monitor)
    → m.status.pending.interrupted && m.status.mask.interrupted ≡ false
    → (notify m).1.status.pending.signaled ≡ true
unfolding notify
notify-signals m h = ground arith

perform-signaled :
    (c : Call) (m : Monitor)
    → m.status.pending.signaled ≡ true
    → (perform c m).status.pending.signaled ≡ true
unfolding perform
perform-signaled (interrupts t) m h = ground arith
perform-signaled cancels m h = ground arith
perform-signaled notifies m h = ground arith
perform-signaled tests_interrupted m h = ground arith
perform-signaled (tests_canceled t) m h = ground arith

wait_end-signaled :
    (e : Errno) (w : Monitor)
    → w.status.mask.signaled ≡ true
    → w.status.pending.signaled ≡ true
    → ((wait_end e w).0 ≡ State.signaled) × ((wait_end e w).1.status.pending.timedout ≡ false)
unfolding wait_end Status.next
wait_end-signaled etimedout w h s = ground arith
wait_end-signaled e w h s = ground arith

notified :
    (cs : List Call) (m : Monitor)
    → m.status.pending.interrupted && m.status.mask.interrupted ≡ false
    → (perform_all (notifies ∷ cs) m).status.pending.signaled ≡ true
unfolding perform_all perform
notified cs m h =
    perform_all_inv (λ x. x.status.pending.signaled ≡ true) perform-signaled cs (notify m).1
      (notify-signals m h)

pub pending-signaled :
    (s : Status.Status)
    → s.mask.signaled ≡ true
    → s.pending.signaled ≡ true
    → Status.pending anything s ≡ true
unfolding Status.pending
pending-signaled s h k = ground arith

stops : (b : Bool) {c : Bool} → c ≡ true → b && not c ≡ false
stops b h = ground arith

-- A thread that blocks with an interest in signals is woken by the first notification that finds no
-- interruption of interest pending: if it comes before the first return of the condition wait,
-- `wait` returns SIGNALED, whatever calls come before and after, and whatever that return's status;
-- a timeout at the same time is absorbed.
pub wait_notified :
    (self ms : ℕ) (clock : Clock) (ws : Option Timespec → List Wakeup) (m : Monitor)
    (before after : List Call) (e : Errno) (rest : List Wakeup)
    → m.status.mask.signaled ≡ true
    → Status.pending anything m.status ≡ false
    → ws (target clock ms) ≡ record { calls = before ++ notifies ∷ after; errno = e } ∷ rest
    → (let w = (perform_all before (blocked self m)).status in
        w.pending.interrupted && w.mask.interrupted ≡ false)
    → (m' : Monitor) × (wait self clock ms ws m ≡ some (State.signaled, m'))
      × (m'.status.pending.timedout ≡ false)
wait_notified self ms clock ws m before after e rest sig p r h =
    let (state, absorbed) = wait_end-signaled e woken listens signals in
    (
      _,
      wait-blocked self ms clock ws m p
          (ap (λ l. wait_loop l (blocked self m)) r
            ∙ first e (before ++ notifies ∷ after) rest (blocked self m)
                (stops (is_eintr e) (pending-signaled woken.status listens signals)))
          state,
      absorbed,
    )
  where
    woken : Monitor
    woken = perform_all (before ++ notifies ∷ after) (blocked self m)

    listens : woken.status.mask.signaled ≡ true
    listens =
        ap (λ (f : Status.Flags). f.signaled)
          (perform_all_inv (λ x. x.status.mask ≡ m.status.mask) (perform-mask m.status.mask)
            (before ++ notifies ∷ after) (blocked self m) refl)
        ∙ sig

    signals : woken.status.pending.signaled ≡ true
    signals =
        rw (perform_all-append before (notifies ∷ after) (blocked self m)) (notified after _ h)

-- The deadline passed to the timed wait lies exactly `ms` milliseconds after the clock's reading,
-- as a normal `timespec`, if the sum of the milliseconds and the seconds fit an unsigned long.
pub deadline_lem :
    (t : Clock) (ms : ℕ)
    → ms + t.milliseconds < 2 ^ 64
    → t.seconds + (ms + t.milliseconds) / 1000 < 2 ^ 64
    → let d = deadline t ms in
      (d.tv_nsec < 1000000000)
      × (d.tv_sec * 1000 + d.tv_nsec / 1000000 ≡ t.seconds * 1000 + t.milliseconds + ms)
unfolding deadline
deadline_lem t ms h k = omega arith
