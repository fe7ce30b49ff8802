-- ===== src/Platform/Windows/Same.antt =====
-- src/win32/Monitor.cxx does what src/posix/Monitor.cxx does.
use zthread.Base.{
  ℕ, ◌≡◌, refl, sym, ap, ◌∙◌, ◌⊎◌, inl, inr, Bool, true, false, not, ◌&&◌, ◌||◌, none, some, List,
  [], ◌∷◌, ◌==◌, if◌then◌else◌, Bool-cases,
}
use zthread.Status.{State, anything}
use zthread.Status
use zthread.Monitor.{Call, interrupts, cancels, notifies, tests_interrupted, tests_canceled}
use zthread.Monitor
use zthread.Monitor.Wait.{Clock, ok, etimedout}
use zthread.Monitor.Wait
use zthread.Monitor.Inversion.{wait-pending}
use zthread.Platform.Once.{wakeup, wait-once}
use zthread.Platform.Windows.{
  Monitor, interrupt, cancel, notify, is_interrupted, is_canceled, owned_by, perform, perform_all,
  own, wait_end, wait,
}

-- The POSIX monitor in the same state, which has signaled its condition so many times.
abbrev pub posix : Monitor → ℕ → Monitor.Monitor
posix m n = record {
  status = m.status;
  locked = m.locked;
  owner = m.owner;
  waiting = m.waiting;
  signals = n;
}

-- What a call answers.
abbrev pub answer : Call → Monitor.Monitor → Bool
answer (interrupts caller) m = (Monitor.interrupt caller m).0
answer cancels m = (Monitor.cancel m).0
answer notifies m = (Monitor.notify m).0
answer tests_interrupted m = (Monitor.is_interrupted m).0
answer (tests_canceled caller) m = (Monitor.is_canceled caller m).0

pub masked-push :
    (f g : Status.Flags) (s : Status.Status) → Status.masked f (Status.push g s) ≡ Status.masked f s
unfolding Status.masked Status.push
masked-push f g s = refl

masked-push_twice :
    (f g k : Status.Flags) (s : Status.Status)
    → Status.masked f (Status.push k (Status.push g s)) ≡ Status.masked f s
masked-push_twice f g k s = masked-push f k (Status.push g s) ∙ masked-push f g s

-- The same answer, and the same monitor but for the signals.
abbrev Agree : Bool × Monitor → Bool × Monitor.Monitor → Type 0
Agree (b, m) (c, k) = (b ≡ c) × (k ≡ posix m k.signals)

interrupt-posix :
    (caller : ℕ) (m : Monitor) (n : ℕ)
    → Agree (interrupt caller m) (Monitor.interrupt caller (posix m n))
unfolding interrupt Monitor.interrupt
interrupt-posix caller m n = elim (Bool-cases (Status.pending Status.only_interrupted m.status)) [
  | inl p ↦ rw p (refl, refl)
  | inr p ↦ elim (Bool-cases (m.waiting && not (Status.masked Status.only_interrupted m.status))) [
    | inl q ↦
        rw (p, masked-push Status.only_interrupted Status.only_interrupted m.status, q) (refl, refl)
    | inr q ↦
        rw (p, masked-push Status.only_interrupted Status.only_interrupted m.status, q) (refl, refl)
  ]
]

cancel-posix : (m : Monitor) (n : ℕ) → Agree (cancel m) (Monitor.cancel (posix m n))
unfolding cancel Monitor.cancel
cancel-posix m n = elim (Bool-cases (Status.pending Status.only_interrupted m.status)) [
  | inl p ↦ rw p (refl, refl)
  | inr p ↦ elim (Bool-cases (m.waiting && not (Status.masked Status.only_interrupted m.status))) [
    | inl q ↦ rw (p, masked-push Status.only_interrupted, q) (refl, refl)
    | inr q ↦ rw (p, masked-push Status.only_interrupted, q) (refl, refl)
  ]
]

notify-posix : (m : Monitor) (n : ℕ) → Agree (notify m) (Monitor.notify (posix m n))
unfolding notify Monitor.notify
notify-posix m n = elim (Bool-cases (Status.pending Status.only_interrupted m.status)) [
  | inl p ↦ rw p (refl, refl)
  | inr p ↦ elim (Bool-cases m.waiting) [
    | inl q ↦ rw (p, q) (refl, refl)
    | inr q ↦ rw (p, q) (refl, refl)
  ]
]

is_canceled-posix :
    (caller : ℕ) (m : Monitor) (n : ℕ)
    → Agree (is_canceled caller m) (Monitor.is_canceled caller (posix m n))
unfolding is_canceled Monitor.is_canceled
is_canceled-posix caller m n = elim (Bool-cases (owned_by caller m)) [
  | inl e ↦ rw e (refl, refl)
  | inr e ↦ rw e (refl, refl)
]

perform-posix :
    (c : Call) (m : Monitor) (n : ℕ)
    → ((perform c m).0 ≡ answer c (posix m n))
      × (Monitor.perform c (posix m n)
          ≡ posix (perform c m).1 (Monitor.perform c (posix m n)).signals)
unfolding perform Monitor.perform is_interrupted Monitor.is_interrupted
perform-posix (interrupts caller) m n = interrupt-posix caller m n
perform-posix cancels m n = cancel-posix m n
perform-posix notifies m n = notify-posix m n
perform-posix tests_interrupted m n = (refl, refl)
perform-posix (tests_canceled caller) m n = is_canceled-posix caller m n

pub perform_all-posix :
    (cs : List Call) (m : Monitor) (n : ℕ)
    → (k : ℕ) × (Monitor.perform_all cs (posix m n) ≡ posix (perform_all cs m) k)
unfolding perform_all Monitor.perform_all
perform_all-posix [] m n = (n, refl)
perform_all-posix (c ∷ cs) m n =
    let (k, e) = perform_all-posix cs (perform c m).1 (Monitor.perform c (posix m n)).signals in
    (k, ap (Monitor.perform_all cs) (perform-posix c m n).1 ∙ e)

-- Whatever calls are made, in any order, the status, the locks, the owner and the waiting flag are the
-- same after them as on POSIX, and the next call answers what it answers there.
pub windows_is_posix :
    (cs : List Call) (c : Call) (m : Monitor) (n : ℕ)
    → (k : ℕ) × (Monitor.perform_all cs (posix m n) ≡ posix (perform_all cs m) k)
      × ((perform c (perform_all cs m)).0 ≡ answer c (Monitor.perform_all cs (posix m n)))
windows_is_posix cs c m n =
    let (k, e) = perform_all-posix cs m n in
    (k, e, (perform-posix c (perform_all cs m) k).0 ∙ sym (ap (answer c) e))

wait_end-posix :
    (late : Bool) (m : Monitor) (n : ℕ)
    → Wait.wait_end (if late then etimedout else ok) (posix m n)
      ≡ ((wait_end late m).0, posix (wait_end late m).1 n)
unfolding wait_end Wait.wait_end Monitor.acquire
wait_end-posix true m n = refl
wait_end-posix false m n = refl

-- The monitor while its owner blocks.
abbrev pub asleep : ℕ → Monitor → Monitor
asleep self m = record (own self m) { locked = false; waiting = true }

some_inj : {A : Type 0} {x y : A} → some x ≡ some y → x ≡ y
some_inj h = cc

-- The two ways in which `wait` comes back.
pub wait_cases :
    (self ms : ℕ) (cs : List Call) (over : Bool) (m : Monitor) {x : State × Monitor}
    → wait self ms cs over m ≡ some x
    → ((Status.pending anything m.status ≡ true)
        × (((Status.next m.status).0, record (own self m) { status = (Status.next m.status).1 })
            ≡ x))
      ⊎ ((Status.pending anything m.status ≡ false)
          × ((over && not (ms == 0)) || (perform_all cs (asleep self m)).event ≡ true)
          × (wait_end (over && not (ms == 0)) (perform_all cs (asleep self m)) ≡ x))
unfolding wait
wait_cases self ms cs over m {x} h = elim (Bool-cases (Status.pending anything m.status)) [
  | inl p ↦ inl (p, some_inj (rw p at h))
  | inr p ↦ elim (Bool-cases ((over && not (ms == 0)) || (perform_all cs (asleep self m)).event)) [
    | inl q ↦ inr (p, q, some_inj (rw (p, q) at h))
    | inr q ↦ let clash : none ≡ some x = rw (p, q) at h in cc
  ]
]

-- Where `wait` comes back, the POSIX `wait` comes back with the same state and the same monitor from one
-- return of its condition wait, with the same calls meanwhile, and with a timeout exactly when the
-- time was over.
pub windows_wait_refines :
    (self ms : ℕ) (clock : Clock) (cs : List Call) (over : Bool) (m : Monitor) (n : ℕ) {s : State}
    {m' : Monitor}
    → wait self ms cs over m ≡ some (s, m')
    → (k : ℕ) × (Wait.wait self clock ms (λ _. wakeup cs (over && not (ms == 0)) ∷ []) (posix m n)
        ≡ some (s, posix m' k))
windows_wait_refines self ms clock cs over m n h = elim (wait_cases self ms cs over m h) [
  | inl (p, e) ↦
      (n, wait-pending self ms clock _ (posix m n) p refl ∙ ap (λ x. some (x.0, posix x.1 n)) e)
  | inr (p, _, e) ↦
      let (k, f) = perform_all-posix cs (asleep self m) n in
      (
        k,
        wait-once self ms clock cs (over && not (ms == 0)) (posix m n) p f
            ∙ ap some (
                wait_end-posix (over && not (ms == 0)) (perform_all cs (asleep self m)) k
                ∙ ap (λ x. (x.0, posix x.1 k)) e),
      )
]
