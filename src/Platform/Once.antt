-- ===== src/Platform/Once.antt =====
-- `Monitor::wait` of src/posix/Monitor.cxx where its condition wait comes back once, by a signal or a
-- timeout.
use zthread.Base.{ℕ, ◌≡◌, refl, ap, ◌∙◌, Bool, true, false, some, List, [], ◌∷◌, if◌then◌else◌}
use zthread.Status.{anything}
use zthread.Status
use zthread.Monitor.{Monitor, Call, perform_all}
use zthread.Monitor.Wait.{Clock, Errno, Wakeup, ok, etimedout, wait_loop, wait_end, wait}
use zthread.Monitor.Inversion.{blocked, wait-blocked}

abbrev pub errno_of : Bool → Errno
errno_of late = if late then etimedout else ok

abbrev pub wakeup : List Call → Bool → Wakeup
wakeup cs late = record { calls = cs; errno = errno_of late }

loop-once :
    (cs : List Call) (late : Bool) (m : Monitor)
    → wait_loop (wakeup cs late ∷ []) m ≡ some (errno_of late, perform_all cs m)
unfolding wait_loop
loop-once cs true m = refl
loop-once cs false m = refl

pub wait-once :
    (self ms : ℕ) (clock : Clock) (cs : List Call) (late : Bool) (m : Monitor) {w : Monitor}
    → Status.pending anything m.status ≡ false
    → perform_all cs (blocked self m) ≡ w
    → wait self clock ms (λ _. wakeup cs late ∷ []) m ≡ some (wait_end (errno_of late) w)
wait-once self ms clock cs late m p e =
    wait-blocked self ms clock (λ _. wakeup cs late ∷ []) m p
      (loop-once cs late (blocked self m) ∙ ap (λ w. some (errno_of late, w)) e) refl
