-- ===== src/Monitor/Sticky.antt =====
-- src/posix/Monitor.cxx: states that are set while nobody waits stay, and end the following wait.
use zthread.Base.{
  ℕ, suc, ◌≡◌, ap, subst, inl, inr, true, false, not, ◌&&◌, Option, some, List, arith,
}
use zthread.Status.{State, anything, only_interrupted}
use zthread.Status
use zthread.Monitor.{
  Monitor, Call, interrupts, cancels, notifies, tests_interrupted, tests_canceled, interrupt,
  notify, cancel, is_canceled, perform, perform_all, owned_by, defer_interruption, end_deferral,
}
use zthread.Monitor.Wait.{Clock, Timespec, Wakeup, Errno, etimedout, wait_end, wait}
use zthread.Monitor.Inversion.{wait-pending, wait_cases, perform_all_inv, wait_loop_inv}

notify-pending :
    (m : Monitor)
    → m.status.mask.signaled ≡ true
    → m.status.pending.interrupted && m.status.mask.interrupted ≡ false
    → ((notify m).0 ≡ true)
      × (Status.pending anything (notify m).1.status ≡ true)
      × ((Status.next (notify m).1.status).0 ≡ State.signaled)
      × ((Status.next (notify m).1.status).1.pending.signaled ≡ false)
unfolding notify Status.next
notify-pending m a b = ground arith

-- A notification of a monitor that takes interest in signals, and has no interruption of interest
-- pending, succeeds. If nobody waits then, the following wait returns SIGNALED without blocking,
-- whatever the timeout, the clock and the other threads do, and uses the signal up.
pub wait-notify :
    (self ms : ℕ) (clock : Clock) (ws : Option Timespec → List Wakeup) (m : Monitor)
    → m.status.mask.signaled ≡ true
    → m.status.pending.interrupted && m.status.mask.interrupted ≡ false
    → ((notify m).0 ≡ true)
      × ((m' : Monitor) × (wait self clock ms ws (notify m).1 ≡ some (State.signaled, m'))
          × (m'.status.pending.signaled ≡ false))
wait-notify self ms clock ws m a b =
    let (done, seen, state, used) = notify-pending m a b in
    (done, (_, wait-pending self ms clock ws _ seen state, used))

interrupt-pending :
    (t : ℕ) (m : Monitor)
    → m.status.pending.signaled ≡ false
    → m.status.pending.timedout ≡ false
    → let m' = end_deferral (interrupt t (defer_interruption m)).1 in
      ((notify (interrupt t (defer_interruption m)).1).0 ≡ true)
      × (Status.pending anything m'.status ≡ true)
      × ((Status.next m'.status).0 ≡ State.interrupted)
      × ((Status.next m'.status).1.pending.interrupted ≡ false)
unfolding notify interrupt defer_interruption end_deferral Status.next
interrupt-pending t m a b = ground arith

-- An interruption made in a scope that defers interruptions, of a monitor with no signal and no
-- timeout pending, is neither lost nor in the way: a notification inside the scope still succeeds,
-- and, where there was none, the first wait after the scope returns INTERRUPTED without blocking,
-- whatever its timeout, the clock and the other threads do, and uses the interruption up.
pub wait-end_deferral :
    (self ms t : ℕ) (clock : Clock) (ws : Option Timespec → List Wakeup) (m : Monitor)
    → m.status.pending.signaled ≡ false
    → m.status.pending.timedout ≡ false
    → ((notify (interrupt t (defer_interruption m)).1).0 ≡ true)
      × ((m' : Monitor) × (wait self clock ms ws
              (end_deferral (interrupt t (defer_interruption m)).1)
            ≡ some (State.interrupted, m'))
          × (m'.status.pending.interrupted ≡ false))
wait-end_deferral self ms t clock ws m a b =
    let (done, seen, state, used) = interrupt-pending t m a b in
    (done, (_, wait-pending self ms clock ws _ seen state, used))

-- `interrupt` in one table: it fails, and changes nothing, exactly while an interruption of interest
-- is pending; otherwise the flag is set, a thread that waits and takes interest is signaled once and
-- the answer is false, and any other is left to find the flag, the answer being whether the caller
-- is not the owner.
pub interrupt_lem :
    (t : ℕ) (m : Monitor)
    → (m.status.pending.interrupted && m.status.mask.interrupted ≡ true
        → interrupt t m ≡ (false, m))
      × (m.status.pending.interrupted && m.status.mask.interrupted ≡ false
          → ((interrupt t m).1.status.pending.interrupted ≡ true)
            × (m.waiting && m.status.mask.interrupted ≡ true
                → ((interrupt t m).0 ≡ false) × ((interrupt t m).1.signals ≡ suc m.signals))
            × (m.waiting && m.status.mask.interrupted ≡ false
                → ((interrupt t m).0 ≡ not (owned_by t m))
                  × ((interrupt t m).1.signals ≡ m.signals)))
unfolding interrupt
interrupt_lem t m = ground arith

perform-canceled :
    (c : Call) (m : Monitor)
    → m.status.pending.canceled ≡ true
    → (perform c m).status.pending.canceled ≡ true
unfolding perform
perform-canceled (interrupts t) m h = ground arith
perform-canceled cancels m h = ground arith
perform-canceled notifies m h = ground arith
perform-canceled tests_interrupted m h = ground arith
perform-canceled (tests_canceled t) m h = ground arith

abbrev Canceled : Monitor → Type 0
Canceled m = m.status.pending.canceled ≡ true

wait_end-Canceled : (e : Errno) (m : Monitor) → Canceled m → Canceled (wait_end e m).1
unfolding wait_end
wait_end-Canceled etimedout m h = ground arith
wait_end-Canceled e m h = ground arith

next-canceled :
    (s : Status.Status) → s.pending.canceled ≡ true → (Status.next s).1.pending.canceled ≡ true
unfolding Status.next
next-canceled s h = ground arith

wait-Canceled :
    (self ms : ℕ) (clock : Clock) (ws : Option Timespec → List Wakeup) (m : Monitor) {s : State}
    {m' : Monitor}
    → Canceled m
    → wait self clock ms ws m ≡ some (s, m')
    → Canceled m'
wait-Canceled self ms clock ws m {s} {m'} h r = elim (wait_cases self ms clock ws m r) [
  | inl (_, _, e) ↦ rw e (next-canceled m.status h)
  | inr (e, w, _, l, q) ↦
      subst Canceled (ap (λ (x : State × Monitor). x.1) q)
        (wait_end-Canceled e w (wait_loop_inv Canceled perform-canceled _ _ h l))
]

cancel-Canceled : (m : Monitor) → Canceled (cancel m).1
unfolding cancel
cancel-Canceled m = ground arith

is_canceled-eq : (t : ℕ) (m : Monitor) → Canceled m → (is_canceled t m).0 ≡ true
unfolding is_canceled
is_canceled-eq t m h = ground arith

-- Once `cancel` has been called, `isCanceled` answers true for any caller, after any calls of other
-- threads, and still does after a wait that returns, whatever happens while it blocks.
pub is_canceled-cancel :
    (self ms t : ℕ) (clock : Clock) (ws : Option Timespec → List Wakeup) (m : Monitor)
    (before after : List Call) {s : State} {m' : Monitor}
    → wait self clock ms ws (perform_all before (cancel m).1) ≡ some (s, m')
    → ((is_canceled t (perform_all before (cancel m).1)).0 ≡ true)
      × ((is_canceled t (perform_all after m')).0 ≡ true)
is_canceled-cancel self ms t clock ws m before after {m'} e = (
  is_canceled-eq t _ held,
  is_canceled-eq t _ (
      perform_all_inv Canceled perform-canceled after m' (wait-Canceled self ms clock ws _ held e)),
)
  where
    held : Canceled (perform_all before (cancel m).1)
    held = perform_all_inv Canceled perform-canceled before (cancel m).1 (cancel-Canceled m)
