-- ===== src/Status/Word.antt =====
-- src/Status.h as it is written: two `unsigned short` words and the masks 0x01, 0x02, 0x04, 0x08.
-- `~x` on the promoted int, stored back into 16 bits, is `0xffff - x`.
use Prim.Native.Nat.{bit_and, bit_or}
use zthread.Base.{ℕ, ◌-◌, Bool, not, if◌then◌else◌, ◌==◌}

pub record Status : Type 0 where
  pub pending : ℕ
  pub mask : ℕ

abbrev pub invalid : ℕ
invalid = 0x00

abbrev pub signaled : ℕ
signaled = 0x01

abbrev pub interrupted : ℕ
interrupted = 0x02

abbrev pub timedout : ℕ
timedout = 0x04

abbrev pub canceled : ℕ
canceled = 0x08

abbrev complement : ℕ → ℕ
complement x = 0xffff - x

abbrev pub anything : ℕ
anything = bit_and (complement invalid) (complement canceled)

abbrev pub init : Status
init = record { pending = invalid; mask = anything }

unfoldable pub interest : ℕ → Status → Status
interest m s = record s { mask = m }

unfoldable pub masked : ℕ → Status → Bool
masked m s = bit_and s.mask m == 0

unfoldable pub pending : ℕ → Status → Bool
pending m s = not (bit_and (bit_and s.pending s.mask) m == invalid)

unfoldable pub examine : ℕ → Status → Bool
examine f s = not (bit_and s.pending f == invalid)

unfoldable pub push : ℕ → Status → Status
push f s = record s { pending = bit_or s.pending f }

unfoldable pub clear : ℕ → Status → Status
clear f s = record s { pending = bit_and s.pending (complement f) }

unfoldable pub next : Status → ℕ × Status
next s =
    if not (bit_and (bit_and s.pending s.mask) signaled == 0)
    then (
      signaled,
      record s { pending = bit_and s.pending (complement (bit_or signaled timedout)) },
    )
    else if not (bit_and (bit_and s.pending s.mask) timedout == 0)
    then (timedout, record s { pending = bit_and s.pending (complement timedout) })
    else if not (bit_and (bit_and s.pending s.mask) interrupted == 0)
    then (interrupted, record s { pending = bit_and s.pending (complement interrupted) })
    else (invalid, s)
