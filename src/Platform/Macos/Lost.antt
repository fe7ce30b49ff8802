-- ===== src/Platform/Macos/Lost.antt =====
-- src/macos/Monitor.cxx: an interruption that nobody listens to.
use zthread.Base.{
  ℕ, ◌≡◌, refl, ap, ◌∙◌, inl, inr, Bool, true, false, not, ◌&&◌, ◌||◌, none, some, [], ◌∷◌, ◌==◌,
  arith, if◌then◌else◌, Bool-cases,
}
use zthread.Status.{State, anything}
use zthread.Status
use zthread.Monitor.{Call, interrupts, notifies}
use zthread.Monitor
use zthread.Monitor.Wait.{Clock, ok}
use zthread.Monitor.Wakeups.{wait_notified}
use zthread.Monitor.Inversion.{blocked}
use zthread.Monitor.Wait
use zthread.Platform.Once.{wakeup}
use zthread.Platform.Macos.Same.{posix}
use zthread.Platform.Macos.{Monitor, interrupt, notify, perform, perform_all, own, wait_end, wait}

-- With interruptions masked, none is seen, and one more changes nothing in that.
hidden :
    (f : Status.Flags) (s : Status.Status)
    → s.mask.interrupted ≡ false
    → (Status.pending Status.only_interrupted (Status.push f s) ≡ false)
      × (Status.pending Status.only_interrupted s ≡ false)
      × (Status.masked Status.only_interrupted (Status.push f s) ≡ true)
unfolding Status.pending Status.push Status.masked
hidden f s h = (ground arith, ground arith, ground arith)

-- `interrupt` marks the waiter as being woken, without waking it.
interrupt-hidden :
    (caller : ℕ) (m : Monitor)
    → m.status.mask.interrupted ≡ false
    → m.waiting && not m.pending ≡ true
    → (interrupt caller m).1
      ≡ record m { status = Status.push Status.only_interrupted m.status; pending = true }
unfolding interrupt
interrupt-hidden caller m h w =
    let (_, p, q) = hidden Status.only_interrupted m.status h in rw (p, w, q)

-- `notify` then finds nobody to wake.
notify-unheard :
    (m : Monitor)
    → m.status.mask.interrupted ≡ false
    → m.pending ≡ true
    → (notify m).1 ≡ record m { status = Status.push Status.only_signaled m.status }
unfolding notify
notify-unheard m h w =
    let (_, p, _) = hidden Status.only_signaled m.status h in
    elim (Bool-cases m.waiting) [ inl v ↦ rw (p, w, v) | inr v ↦ rw (p, w, v) ]

-- After both nobody has signaled the semaphore, and the waiter counts as being woken.
unheard :
    (caller : ℕ) (m : Monitor)
    → m.status.mask.interrupted ≡ false
    → m.waiting && not m.pending ≡ true
    → let woken = perform_all (interrupts caller ∷ notifies ∷ []) m in
      (woken.sema ≡ m.sema) × (woken.pending ≡ true)
unfolding perform_all perform Status.push
unheard caller m h w =
    let after = record m {
      status = Status.push Status.only_interrupted m.status;
      pending = true;
    } in
    let e = ap (λ x. (notify x).1) (interrupt-hidden caller m h w) ∙ notify-unheard after h refl in
    (ap (λ (x : Monitor). x.sema) e, ap (λ (x : Monitor). x.pending) e)

-- The POSIX monitor shows no interruption either.
posix-hidden :
    (caller : ℕ) (m : Monitor.Monitor)
    → m.status.mask.interrupted ≡ false
    → let w = (Monitor.perform_all (interrupts caller ∷ []) m).status in
      w.pending.interrupted && w.mask.interrupted ≡ false
unfolding Monitor.perform_all Monitor.perform
posix-hidden caller m h = ground arith

-- Whether the time is over or not, a thread that counts as being woken needs the semaphore.
still_blocks :
    (late : Bool) (m : Monitor)
    → m.sema ≡ false
    → m.pending ≡ true
    → (if late || m.sema then wait_end late m else none) ≡ none
unfolding wait_end
still_blocks true m s p = rw (s, p)
still_blocks false m s p = rw s

-- A thread blocks, listens to signals and not to interruptions, as it does while it asks for the
-- predicate lock of a condition again, and nothing that it listens to is pending. If it is interrupted
-- and then notified, it goes on blocking, with a timeout too and whether its time is over or not,
-- although the POSIX `wait` returns SIGNALED from the same calls.
pub macos_notify_lost :
    (self caller ms : ℕ) (clock : Clock) (over : Bool) (m : Monitor) (n : ℕ)
    → m.status.mask.interrupted ≡ false
    → m.status.mask.signaled ≡ true
    → Status.pending anything m.status ≡ false
    → m.pending ≡ false
    → m.sema ≡ false
    → let cs = interrupts caller ∷ notifies ∷ [] in
      (wait self ms cs over m ≡ none)
      × ((m' : Monitor.Monitor) × (Wait.wait self clock ms (λ _. wakeup cs false ∷ []) (posix m n)
            ≡ some (State.signaled, m')))
unfolding wait
macos_notify_lost self caller ms clock over m n h k p q r =
    let asleep = record (own self m) { locked = false; waiting = true } in
    let (sema, pending) = unheard caller asleep h (ap not q) in
    let cs = interrupts caller ∷ notifies ∷ [] in
    let (m', e, _) =
      wait_notified self ms clock (λ _. wakeup cs false ∷ []) (posix m n) (interrupts caller ∷ [])
        [] ok [] k p refl (posix-hidden caller (blocked self (posix m n)) h) in
    (
      rw p (still_blocks (over && not (ms == 0)) (perform_all cs asleep) (sema ∙ r) pending),
      (m', e),
    )
