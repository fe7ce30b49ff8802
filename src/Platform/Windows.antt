-- ===== src/Platform/Windows.antt =====
-- src/win32/Monitor.h and src/win32/Monitor.cxx. The manual-reset event is the flag whether it is set;
-- `waits` for it come back when it is set or the time is over. Every function but `wait` holds
-- `_waitLock` from its first access to its last, so it is one step.
pub mod Same
pub mod Prompt
use zthread.Base.{
  ℕ, Bool, true, false, not, ◌&&◌, ◌||◌, Option, none, some, List, [], ◌∷◌, ◌==◌, if◌then◌else◌,
}
use zthread.Status.{
  State, only_signaled, only_interrupted, only_canceled, only_timedout, anything, masked,
}
use zthread.Status
use zthread.Monitor.{Call, interrupts, cancels, notifies, tests_interrupted, tests_canceled}

pub record Monitor : Type 0 where
  pub status : Status.Status
  pub locked : Bool
  pub owner : Option ℕ
  pub waiting : Bool
  pub event : Bool

abbrev pub init : Monitor
init = record { status = Status.init; locked = false; owner = none; waiting = false; event = false }

abbrev pub set_status : Status.Status → Monitor → Monitor
set_status s m = record m { status = s }

-- `_owner == ::GetCurrentThreadId()`
abbrev pub owned_by : ℕ → Monitor → Bool
owned_by self m = elim m.owner [ none ↦ false | some t ↦ t == self ]

abbrev pub set_event : Monitor → Monitor
set_event m = record m { event = true }

unfoldable pub interrupt : ℕ → Monitor → Bool × Monitor
unfolding Status.pending Status.push masked
interrupt self m =
    let pushed = set_status (Status.push only_interrupted m.status) m in
    if not (Status.pending only_interrupted m.status)
    then (if m.waiting && not (masked only_interrupted pushed.status)
        then (false, set_event pushed)
        else (not (owned_by self m), pushed))
    else (false, m)

unfoldable pub is_interrupted : Monitor → Bool × Monitor
unfolding Status.pending Status.clear
is_interrupted m = (
  Status.pending only_interrupted m.status,
  set_status (Status.clear only_interrupted m.status) m,
)

unfoldable pub notify : Monitor → Bool × Monitor
unfolding Status.pending Status.push
notify m =
    let pushed = set_status (Status.push only_signaled m.status) m in
    if not (Status.pending only_interrupted m.status)
    then (true, (if m.waiting then set_event pushed else pushed))
    else (false, m)

unfoldable pub cancel : Monitor → Bool × Monitor
unfolding Status.pending Status.push masked
cancel m =
    let canceled = Status.push only_canceled m.status in
    let pushed = set_status (Status.push only_interrupted canceled) m in
    if not (Status.pending only_interrupted m.status)
    then (
      true,
      (if m.waiting && not (masked only_interrupted pushed.status)
          then set_event pushed
          else pushed),
    )
    else (false, set_status canceled m)

unfoldable pub is_canceled : ℕ → Monitor → Bool × Monitor
unfolding Status.examine Status.clear
is_canceled self m = (
  Status.examine only_canceled m.status,
  if owned_by self m then set_status (Status.clear only_interrupted m.status) m else m,
)

unfoldable pub perform : Call → Monitor → Bool × Monitor
unfolding interrupt cancel notify is_interrupted is_canceled
perform (interrupts caller) m = interrupt caller m
perform cancels m = cancel m
perform notifies m = notify m
perform tests_interrupted m = is_interrupted m
perform (tests_canceled caller) m = is_canceled caller m

unfoldable pub perform_all : List Call → Monitor → Monitor
perform_all [] m = m
perform_all (c ∷ cs) m = perform_all cs (perform c m).1

abbrev pub own : ℕ → Monitor → Monitor
own self m = record m { owner = (elim m.owner [ none ↦ some self | some t ↦ some t ]) }

-- From `WaitForSingleObject` on; the first argument is whether it returned WAIT_TIMEOUT.
unfoldable pub wait_end : Bool → Monitor → State × Monitor
unfolding Status.push Status.next
wait_end late m =
    let timed = if late then set_status (Status.push only_timedout m.status) m else m in
    let (state, status) = Status.next timed.status in
    (state, record timed { status = status; waiting = false; event = false; locked = true })

-- What happens while the thread blocks: the calls until `_waitLock` is acquired again, and whether
-- the time is over first. `none` while it still blocks.
unfoldable pub wait : ℕ → ℕ → List Call → Bool → Monitor → Option (State × Monitor)
wait self ms calls over m =
    let owned = own self m in
    let woken = perform_all calls (record owned { locked = false; waiting = true }) in
    let late = over && not (ms == 0) in
    if Status.pending anything owned.status
    then (let (state, status) = Status.next owned.status in some (state, set_status status owned))
    else if late || woken.event
    then some (wait_end late woken)
    else none
