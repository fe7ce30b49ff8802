-- ===== src/Monitor/Inversion.antt =====
-- `Monitor::wait` of src/posix/Monitor.cxx, taken apart: the ways in which it returns.
use zthread.Base.{
  ℕ, ◌≡◌, refl, subst, ◌⊎◌, inl, inr, Bool, true, false, not, ◌&&◌, Option, none, some, List, [],
  ◌∷◌, ◌++◌, arith, ◌==◌, if◌then◌else◌, Bool-cases, Option-cases,
}
use zthread.Status.{State, anything}
use zthread.Status
use zthread.Monitor.{Monitor, Call, set_status, perform, perform_all}
use zthread.Monitor.Wait.{
  Clock, Timespec, Wakeup, Errno, is_eintr, deadline, wait_loop, wait_end, own, wait,
}

-- The monitor that `wait` leaves when it returns without blocking.
abbrev pub consumed : ℕ → Monitor → Monitor
consumed self m = set_status (Status.next m.status).1 (own self m)

-- The monitor while its owner blocks.
abbrev pub blocked : ℕ → Monitor → Monitor
blocked self m = record (own self m) { locked = false; waiting = true }

abbrev pub target : Clock → ℕ → Option Timespec
target clock ms = if ms == 0 then none else some (deadline clock ms)

module _ (self ms : ℕ) (clock : Clock) (ws : Option Timespec → List Wakeup) (m : Monitor) where
  pub wait-pending :
      {s : State}
      → Status.pending anything m.status ≡ true
      → (Status.next m.status).0 ≡ s
      → wait self clock ms ws m ≡ some (s, consumed self m)
  unfolding wait
  wait-pending {s} h e = rw (h, e)

  pub wait-blocked :
      {e : Errno} {w : Monitor} {s : State}
      → Status.pending anything m.status ≡ false
      → wait_loop (ws (target clock ms)) (blocked self m) ≡ some (e, w)
      → (wait_end e w).0 ≡ s
      → wait self clock ms ws m ≡ some (s, (wait_end e w).1)
  unfolding wait
  wait-blocked h l r = rw (h, l, wait, ← r)

  pub wait_cases :
      {s : State} {m' : Monitor}
      → wait self clock ms ws m ≡ some (s, m')
      → ((Status.pending anything m.status ≡ true)
          × (s ≡ (Status.next m.status).0)
          × (m' ≡ consumed self m))
        ⊎ ((e : Errno) × (w : Monitor) × (Status.pending anything m.status ≡ false)
            × (wait_loop (ws (target clock ms)) (blocked self m) ≡ some (e, w))
            × (wait_end e w ≡ (s, m')))
  unfolding wait
  wait_cases h = elim (Bool-cases (Status.pending anything m.status)) [
    | inl p ↦ inl (p, ground arith, ground arith)
    | inr p ↦ elim (Option-cases (wait_loop (ws (target clock ms)) (blocked self m))) [
      | inl q ↦ ground arith
      | inr ((e, w), q) ↦ inr (e, w, p, q, ground arith)
    ]
  ]

-- The test of the loop.
abbrev pub again : Wakeup → Monitor → Bool
again w m = is_eintr w.errno && not (Status.pending anything m.status)

returned :
    {f g : Errno} {x y : Monitor}
    → ◌≡◌ {A = Option (Errno × Monitor)} (some (f, x)) (some (g, y))
    → x ≡ y
returned q = cc

module _ {ℓ} (P : Monitor → Type ℓ) (keep : (c : Call) (m : Monitor) → P m → P (perform c m)) where
  pub perform_all_inv : (cs : List Call) (m : Monitor) → P m → P (perform_all cs m)
  unfolding perform_all
  perform_all_inv [] m h = h
  perform_all_inv (c ∷ cs) m h = perform_all_inv cs (perform c m) (keep c m h)

  pub wait_loop_inv :
      (ws : List Wakeup) (m : Monitor) {e : Errno} {m' : Monitor}
      → P m
      → wait_loop ws m ≡ some (e, m')
      → P m'
  unfolding wait_loop
  wait_loop_inv [] m h e = cc
  wait_loop_inv (w ∷ ws) m h e = elim (Bool-cases (again w (perform_all w.calls m))) [
    | inl c ↦ wait_loop_inv ws (perform_all w.calls m) held (rw c at e)
    | inr c ↦ subst P (returned (rw c at e)) held
  ]
    where
      held : P (perform_all w.calls m)
      held = perform_all_inv w.calls m h

pub perform_all-append :
    (xs ys : List Call) (m : Monitor) → perform_all (xs ++ ys) m ≡ perform_all ys (perform_all xs m)
unfolding perform_all
perform_all-append [] ys m = refl
perform_all-append (c ∷ xs) ys m = perform_all-append xs ys (perform c m)
