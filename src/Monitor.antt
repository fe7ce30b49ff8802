-- ===== src/Monitor.antt =====
-- src/posix/Monitor.h and src/posix/Monitor.cxx: the monitor that each thread owns. `owner` is
-- `none` until the first wait, as `_owner` is 0; `locked` is the external lock `_lock`; `signals`
-- counts the calls of `pthread_cond_signal(&_waitCond)`. Every function but `wait` holds
-- `_waitLock` from its first access to its last, so it is one step.
pub mod Wait
pub mod Inversion
pub mod Wakeups
pub mod Sticky
pub mod Tests
use zthread.Base.{
  ℕ, ◌+◌, ◌≡◌, Bool, true, false, not, ◌&&◌, Option, none, some, List, [], ◌∷◌, ◌==◌, if◌then◌else◌,
}
use zthread.Status.{only_signaled, only_interrupted, only_canceled, only_timedout, anything, masked}
use zthread.Status

pub record Monitor : Type 0 where
  pub status : Status.Status
  pub locked : Bool
  pub owner : Option ℕ
  pub waiting : Bool
  pub signals : ℕ

abbrev pub init : Monitor
init = record { status = Status.init; locked = false; owner = none; waiting = false; signals = 0 }

abbrev pub set_status : Status.Status → Monitor → Monitor
set_status s m = record m { status = s }

-- `pthread_equal(_owner, pthread_self())`
abbrev pub owned_by : ℕ → Monitor → Bool
owned_by self m = elim m.owner [ none ↦ false | some t ↦ t == self ]

abbrev pub cond_signal : Monitor → Monitor
cond_signal m = record m { signals = m.signals + 1 }

-- `acquire` of a lock that is free, `release`, and `tryAcquire`.
unfoldable pub acquire : Monitor → Monitor
acquire m = record m { locked = true }

unfoldable pub release : Monitor → Monitor
release m = record m { locked = false }

unfoldable pub try_acquire : Monitor → Bool × Monitor
try_acquire m = if m.locked then (false, m) else (true, record m { locked = true })

unfoldable pub interrupt : ℕ → Monitor → Bool × Monitor
unfolding Status.pending Status.push masked
interrupt self m =
    if not (Status.pending only_interrupted m.status)
    then (if m.waiting && not (masked only_interrupted m.status)
        then (false, cond_signal (set_status (Status.push only_interrupted m.status) m))
        else (not (owned_by self m), set_status (Status.push only_interrupted m.status) m))
    else (false, m)

unfoldable pub is_interrupted : Monitor → Bool × Monitor
unfolding Status.pending Status.clear
is_interrupted m = (
  Status.pending only_interrupted m.status,
  set_status (Status.clear only_interrupted m.status) m,
)

unfoldable pub is_canceled : ℕ → Monitor → Bool × Monitor
unfolding Status.examine Status.clear
is_canceled self m = (
  Status.examine only_canceled m.status,
  if owned_by self m then set_status (Status.clear only_interrupted m.status) m else m,
)

unfoldable pub cancel : Monitor → Bool × Monitor
unfolding Status.pending Status.push masked
cancel m =
    let pushed = Status.push only_canceled m.status in
    if not (Status.pending only_interrupted m.status)
    then (if m.waiting && not (masked only_interrupted pushed)
        then (true, cond_signal (set_status (Status.push only_interrupted pushed) m))
        else (true, set_status (Status.push only_interrupted pushed) m))
    else (false, set_status pushed m)

unfoldable pub notify : Monitor → Bool × Monitor
unfolding Status.pending Status.push
notify m =
    if not (Status.pending only_interrupted m.status)
    then (
      true,
      (if m.waiting
          then cond_signal (set_status (Status.push only_signaled m.status) m)
          else set_status (Status.push only_signaled m.status) m),
    )
    else (false, m)

-- src/DeferredInterruptionScope.h: what its scope does to the monitor, at its two ends.
unfoldable pub defer_interruption : Monitor → Monitor
unfolding Status.interest
defer_interruption m = set_status (Status.interest only_signaled m.status) m

unfoldable pub end_deferral : Monitor → Monitor
unfolding Status.interest
end_deferral m = set_status (Status.interest anything m.status) m

-- What another thread, or the owner between two waits, may do to a monitor.
pub data Call : Type 0 where
  interrupts : (caller : ℕ) → Call
  cancels notifies tests_interrupted : Call
  tests_canceled : (caller : ℕ) → Call

unfoldable pub perform : Call → Monitor → Monitor
unfolding interrupt cancel notify is_interrupted is_canceled
perform (interrupts caller) m = (interrupt caller m).1
perform cancels m = (cancel m).1
perform notifies m = (notify m).1
perform tests_interrupted m = (is_interrupted m).1
perform (tests_canceled caller) m = (is_canceled caller m).1

unfoldable pub perform_all : List Call → Monitor → Monitor
perform_all [] m = m
perform_all (c ∷ cs) m = perform_all cs (perform c m)
