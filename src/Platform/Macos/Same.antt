-- ===== src/Platform/Macos/Same.antt =====
-- src/macos/Monitor.cxx: where `wait` comes back, it does what that of src/posix/Monitor.cxx does.
use zthread.Base.{
  ℕ, ◌≡◌, refl, sym, ap, ◌∙◌, ◌⊎◌, inl, inr, Bool, true, false, not, ◌&&◌, ◌||◌, none, some, List,
  [], ◌∷◌, ◌==◌, arith, if◌then◌else◌, Bool-cases,
}
use zthread.Status.{State, anything}
use zthread.Status
use zthread.Monitor.{Call, interrupts, cancels, notifies, tests_interrupted, tests_canceled}
use zthread.Monitor
use zthread.Monitor.Wait.{Clock, ok, etimedout}
use zthread.Monitor.Wait
use zthread.Monitor.Inversion.{wait-pending}
use zthread.Platform.Once.{wakeup, wait-once}
use zthread.Platform.Macos.{
  Monitor, interrupt, cancel, notify, is_interrupted, is_canceled, owned_by, perform, perform_all,
  own, wait_end, wait,
}

-- The POSIX monitor in the same state, which has signaled its condition so many times.
abbrev pub posix : Monitor → ℕ → Monitor.Monitor
posix m n = record {
  status = m.status;
  locked = m.locked;
  owner = m.owner;
  waiting = m.waiting;
  signals = n;
}

-- The same monitor but for the signals. What a call answers may differ.
abbrev Agree : Monitor → Monitor.Monitor → Type 0
Agree m k = k ≡ posix m k.signals

agree :
    (m : Monitor) (k : Monitor.Monitor)
    → k.status ≡ m.status
    → k.locked ≡ m.locked
    → k.owner ≡ m.owner
    → k.waiting ≡ m.waiting
    → Agree m k
agree m k a b c d =
    λ i. record { status = a i; locked = b i; owner = c i; waiting = d i; signals = k.signals }

-- The status after an interruption.
abbrev interrupted : Status.Status → Status.Status
interrupted s =
    if Status.pending Status.only_interrupted s then s else Status.push Status.only_interrupted s

macos_interrupt :
    (caller : ℕ) (m : Monitor)
    → let k = (interrupt caller m).1 in
      (k.status ≡ interrupted m.status)
      × (k.locked ≡ m.locked)
      × (k.owner ≡ m.owner)
      × (k.waiting ≡ m.waiting)
unfolding interrupt
macos_interrupt caller m = (ground arith, ground arith, ground arith, ground arith)

posix_interrupt :
    (caller : ℕ) (m : Monitor.Monitor)
    → let k = (Monitor.interrupt caller m).1 in
      (k.status ≡ interrupted m.status)
      × (k.locked ≡ m.locked)
      × (k.owner ≡ m.owner)
      × (k.waiting ≡ m.waiting)
unfolding Monitor.interrupt
posix_interrupt caller m = (ground arith, ground arith, ground arith, ground arith)

interrupt-posix :
    (caller : ℕ) (m : Monitor) (n : ℕ)
    → Agree (interrupt caller m).1 (Monitor.interrupt caller (posix m n)).1
unfolding interrupt Monitor.interrupt
interrupt-posix caller m n =
    let (a, b, c, d) = macos_interrupt caller m in
    let (a', b', c', d') = posix_interrupt caller (posix m n) in
    agree (interrupt caller m).1 (Monitor.interrupt caller (posix m n)).1 (a' ∙ sym a) (b' ∙ sym b)
      (c' ∙ sym c) (d' ∙ sym d)

cancel-posix : (m : Monitor) (n : ℕ) → Agree (cancel m).1 (Monitor.cancel (posix m n)).1
unfolding cancel Monitor.cancel
cancel-posix m n = ground arith

notify-posix : (m : Monitor) (n : ℕ) → Agree (notify m).1 (Monitor.notify (posix m n)).1
unfolding notify Monitor.notify
notify-posix m n = ground arith

is_canceled-posix :
    (caller : ℕ) (m : Monitor) (n : ℕ)
    → Agree (is_canceled caller m).1 (Monitor.is_canceled caller (posix m n)).1
unfolding is_canceled Monitor.is_canceled
is_canceled-posix caller m n = elim (Bool-cases (owned_by caller m)) [
  | inl e ↦ rw e refl
  | inr e ↦ rw e refl
]

perform-posix :
    (c : Call) (m : Monitor) (n : ℕ) → Agree (perform c m).1 (Monitor.perform c (posix m n))
unfolding perform Monitor.perform is_interrupted Monitor.is_interrupted
perform-posix (interrupts caller) m n = interrupt-posix caller m n
perform-posix cancels m n = cancel-posix m n
perform-posix notifies m n = notify-posix m n
perform-posix tests_interrupted m n = refl
perform-posix (tests_canceled caller) m n = is_canceled-posix caller m n

pub perform_all-posix :
    (cs : List Call) (m : Monitor) (n : ℕ)
    → (k : ℕ) × (Monitor.perform_all cs (posix m n) ≡ posix (perform_all cs m) k)
unfolding perform_all Monitor.perform_all
perform_all-posix [] m n = (n, refl)
perform_all-posix (c ∷ cs) m n =
    let (k, e) = perform_all-posix cs (perform c m).1 (Monitor.perform c (posix m n)).signals in
    (k, ap (Monitor.perform_all cs) (perform-posix c m n) ∙ e)

some_inj : {A : Type 0} {x y : A} → some x ≡ some y → x ≡ y
some_inj h = cc

-- Where the end of `wait` does not block.
wait_end-posix :
    (late : Bool) (m : Monitor) (n : ℕ) {x : State × Monitor}
    → wait_end late m ≡ some x
    → Wait.wait_end (if late then etimedout else ok) (posix m n) ≡ (x.0, posix x.1 n)
unfolding wait_end Wait.wait_end Monitor.acquire
wait_end-posix true m n h = elim (Bool-cases m.pending) [
  | inl p ↦ elim (Bool-cases m.sema) [
    | inl q ↦ ap (λ x. (x.0, posix x.1 n)) (some_inj (rw (p, q) at h))
    | inr q ↦ let clash = rw (p, q) at h in cc
  ]
  | inr p ↦ ap (λ x. (x.0, posix x.1 n)) (some_inj (rw p at h))
]
wait_end-posix false m n h = ap (λ x. (x.0, posix x.1 n)) (some_inj h)

-- The monitor while its owner blocks.
abbrev asleep : ℕ → Monitor → Monitor
asleep self m = record (own self m) { locked = false; waiting = true }

-- The two ways in which `wait` comes back.
wait_cases :
    (self ms : ℕ) (cs : List Call) (over : Bool) (m : Monitor) {x : State × Monitor}
    → wait self ms cs over m ≡ some x
    → ((Status.pending anything m.status ≡ true)
        × (((Status.next m.status).0, record (own self m) { status = (Status.next m.status).1 })
            ≡ x))
      ⊎ ((Status.pending anything m.status ≡ false)
          × (wait_end (over && not (ms == 0)) (perform_all cs (asleep self m)) ≡ some x))
unfolding wait
wait_cases self ms cs over m {x} h = elim (Bool-cases (Status.pending anything m.status)) [
  | inl p ↦ inl (p, some_inj (rw p at h))
  | inr p ↦ elim (Bool-cases ((over && not (ms == 0)) || (perform_all cs (asleep self m)).sema)) [
    | inl q ↦ inr (p, rw (p, q) at h)
    | inr q ↦ let clash : none ≡ some x = rw (p, q) at h in cc
  ]
]

-- Where `wait` comes back, the POSIX `wait` comes back with the same state and the same monitor from one
-- return of its condition wait, with the same calls meanwhile, and with a timeout exactly when the
-- time was over.
pub macos_wait_refines :
    (self ms : ℕ) (clock : Clock) (cs : List Call) (over : Bool) (m : Monitor) (n : ℕ) {s : State}
    {m' : Monitor}
    → wait self ms cs over m ≡ some (s, m')
    → (k : ℕ) × (Wait.wait self clock ms (λ _. wakeup cs (over && not (ms == 0)) ∷ []) (posix m n)
        ≡ some (s, posix m' k))
macos_wait_refines self ms clock cs over m n h = elim (wait_cases self ms cs over m h) [
  | inl (p, e) ↦
      (n, wait-pending self ms clock _ (posix m n) p refl ∙ ap (λ x. some (x.0, posix x.1 n)) e)
  | inr (p, e) ↦
      let (k, f) = perform_all-posix cs (asleep self m) n in
      (
        k,
        wait-once self ms clock cs (over && not (ms == 0)) (posix m n) p f
            ∙ ap some (wait_end-posix (over && not (ms == 0)) (perform_all cs (asleep self m)) k e),
      )
]
