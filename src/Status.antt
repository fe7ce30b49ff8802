-- ===== src/Status.antt =====
-- src/Status.h: the pending state changes of a thread's monitor and its interest mask, with each
-- flag of the two masks as a Boolean field. `Status/Word` has the class over 16-bit words.
pub mod Word
pub mod Refinement
pub mod Order
pub mod Tests
use zthread.Base.{Bool, true, false, not, ◌&&◌, ◌||◌, if◌then◌else◌}

pub record Flags : Type 0 where
  pub signaled : Bool
  pub interrupted : Bool
  pub timedout : Bool
  pub canceled : Bool

-- `Status::STATE`, the values that `next` returns.
pub data State : Type 0 where
  invalid signaled interrupted timedout : State

pub record Status : Type 0 where
  pub pending : Flags
  pub mask : Flags

abbrev pub no_flags : Flags
no_flags = record { signaled = false; interrupted = false; timedout = false; canceled = false }

abbrev pub only_signaled : Flags
only_signaled = record { signaled = true; interrupted = false; timedout = false; canceled = false }

abbrev pub only_interrupted : Flags
only_interrupted = record {
  signaled = false;
  interrupted = true;
  timedout = false;
  canceled = false;
}

abbrev pub only_timedout : Flags
only_timedout = record { signaled = false; interrupted = false; timedout = true; canceled = false }

abbrev pub only_canceled : Flags
only_canceled = record { signaled = false; interrupted = false; timedout = false; canceled = true }

abbrev pub anything : Flags
anything = record { signaled = true; interrupted = true; timedout = true; canceled = false }

abbrev pub init : Status
init = record { pending = no_flags; mask = anything }

abbrev pub meet : Flags → Flags → Flags
meet f g = record {
  signaled = f.signaled && g.signaled;
  interrupted = f.interrupted && g.interrupted;
  timedout = f.timedout && g.timedout;
  canceled = f.canceled && g.canceled;
}

abbrev pub join : Flags → Flags → Flags
join f g = record {
  signaled = f.signaled || g.signaled;
  interrupted = f.interrupted || g.interrupted;
  timedout = f.timedout || g.timedout;
  canceled = f.canceled || g.canceled;
}

abbrev pub minus : Flags → Flags → Flags
minus f g = record {
  signaled = f.signaled && not g.signaled;
  interrupted = f.interrupted && not g.interrupted;
  timedout = f.timedout && not g.timedout;
  canceled = f.canceled && not g.canceled;
}

abbrev pub any_flag : Flags → Bool
any_flag f = f.signaled || (f.interrupted || (f.timedout || f.canceled))

unfoldable pub interest : Flags → Status → Status
interest m s = record s { mask = m }

unfoldable pub masked : Flags → Status → Bool
masked m s = not (any_flag (meet s.mask m))

unfoldable pub pending : Flags → Status → Bool
pending m s = any_flag (meet (meet s.pending s.mask) m)

unfoldable pub examine : Flags → Status → Bool
examine f s = any_flag (meet s.pending f)

unfoldable pub push : Flags → Status → Status
push f s = record s { pending = join s.pending f }

unfoldable pub clear : Flags → Status → Status
clear f s = record s { pending = minus s.pending f }

-- The assertion after the chain of tests is the caller's: `invalid` is what NDEBUG returns.
unfoldable pub next : Status → State × Status
next s =
    if s.pending.signaled && s.mask.signaled
    then (State.signaled, record s { pending = minus s.pending (join only_signaled only_timedout) })
    else if s.pending.timedout && s.mask.timedout
    then (State.timedout, record s { pending = minus s.pending only_timedout })
    else if s.pending.interrupted && s.mask.interrupted
    then (State.interrupted, record s { pending = minus s.pending only_interrupted })
    else (State.invalid, s)
