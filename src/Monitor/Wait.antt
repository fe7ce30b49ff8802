-- ===== src/Monitor/Wait.antt =====
-- `Monitor::wait` of src/posix/Monitor.cxx. What happens while the thread blocks is an argument:
-- for each return of `pthread_cond_wait` or `pthread_cond_timedwait`, the calls that other threads
-- made on the monitor meanwhile, and the status. The list may depend on the deadline passed.
use zthread.Base.{
  ℕ, ◌+◌, ◌*◌, ◌/◌, ◌%◌, ◌^◌, Bool, true, false, not, ◌&&◌, Option, none, some, List, [], ◌∷◌, ◌==◌,
  if◌then◌else◌,
}
use zthread.Status.{State, anything, only_timedout}
use zthread.Status
use zthread.Monitor.{Monitor, Call, set_status, acquire, release, perform_all}

pub data Errno : Type 0 where
  ok eintr etimedout : Errno

pub record Wakeup : Type 0 where
  pub calls : List Call
  pub errno : Errno

-- A `struct timespec`, and the time that TimeStrategy reads from the clock.
pub record Timespec : Type 0 where
  pub tv_sec : ℕ
  pub tv_nsec : ℕ

pub record Clock : Type 0 where
  pub seconds : ℕ
  pub milliseconds : ℕ

abbrev pub ulong : ℕ → ℕ
ulong n = n % 2 ^ 64

unfoldable pub deadline : Clock → ℕ → Timespec
deadline t ms = record {
  tv_sec = ulong (t.seconds + ulong (ms + t.milliseconds) / 1000);
  tv_nsec = ulong (ms + t.milliseconds) % 1000 * 1000000;
}

abbrev pub is_eintr : Errno → Bool
is_eintr eintr = true
is_eintr _ = false

abbrev pub is_etimedout : Errno → Bool
is_etimedout etimedout = true
is_etimedout _ = false

-- The `do … while`: `none` while the thread still blocks.
unfoldable pub wait_loop : List Wakeup → Monitor → Option (Errno × Monitor)
wait_loop [] m = none
wait_loop (w ∷ ws) m =
    let woken = perform_all w.calls m in
    let again = wait_loop ws woken in
    if is_eintr w.errno && not (Status.pending anything woken.status)
    then again
    else some (w.errno, woken)

-- From `next` to the end, once the loop is left.
unfoldable pub wait_over : Errno → Monitor → State × Monitor
unfolding Status.push Status.next
wait_over e m =
    let timed = if is_etimedout e then set_status (Status.push only_timedout m.status) m else m in
    let (state, status) = Status.next timed.status in
    (state, record timed { status = status; waiting = false })

-- The same with the reacquisition of the external lock.
unfoldable pub wait_end : Errno → Monitor → State × Monitor
unfolding wait_over acquire
wait_end e m = let (state, over) = wait_over e m in (state, acquire over)

abbrev pub own : ℕ → Monitor → Monitor
own self m = record m { owner = (elim m.owner [ none ↦ some self | some t ↦ some t ]) }

unfoldable pub wait :
    ℕ → Clock → ℕ → (Option Timespec → List Wakeup) → Monitor → Option (State × Monitor)
unfolding release
wait self clock ms wakeups m =
    let owned = own self m in
    let blocked = record (release owned) { waiting = true } in
    let target = if ms == 0 then none else some (deadline clock ms) in
    if Status.pending anything owned.status
    then (let (state, status) = Status.next owned.status in some (state, set_status status owned))
    else elim (wait_loop (wakeups target) blocked) [
      | none ↦ none
      | some (e, woken) ↦ some (wait_end e woken)
    ]
