-- ===== src/Time.antt =====
-- include/zthread/Time.h and src/Time.cxx: a time of seconds and milliseconds, both unsigned longs of 64 bits.
pub mod Arithmetic
pub mod Tests
use zthread.Base.{ℕ, zero, suc, ◌+◌, ◌-◌, ◌/◌, ◌%◌, ◌^◌, Bool, true, false, not, ltb, if◌then◌else◌}

pub record Time : Type 0 where
  pub seconds : ℕ
  pub milliseconds : ℕ

abbrev pub ulong : ℕ → ℕ
ulong n = n % 2 ^ 64

-- The private setters, which return the old value.
abbrev pub set_milliseconds : ℕ → Time → ℕ × Time
set_milliseconds millis t = (t.milliseconds, record t { milliseconds = millis })

abbrev pub set_seconds : ℕ → Time → ℕ × Time
set_seconds secs t = (t.seconds, record t { seconds = secs })

unfoldable pub add_millis : ℕ → Time → Time
add_millis millis t =
    let n = ulong (t.milliseconds + millis) in
    record { seconds = ulong (t.seconds + n / 1000); milliseconds = n % 1000 }

unfoldable pub add_time : Time → Time → Time
add_time u t =
    let n = ulong (t.milliseconds + u.milliseconds) in
    record { seconds = ulong (t.seconds + ulong (n / 1000 + u.seconds)); milliseconds = n % 1000 }

-- The loop of both subtractions: seconds are turned into milliseconds while there are too few.
unfoldable pub borrow : ℕ → ℕ → ℕ → Time
borrow millis zero ms = record { seconds = 0; milliseconds = ms }
borrow millis (suc s) ms =
    let rest = borrow millis s (ulong (ms + 1000)) in
    if ltb ms millis then rest else record { seconds = suc s; milliseconds = ms }

-- `(_milliseconds < millis) ? 0 : (_milliseconds - millis)`
abbrev pub floor : ℕ → ℕ → ℕ
floor a b = if ltb a b then 0 else a - b

unfoldable pub subtract_millis : ℕ → Time → Time
unfolding borrow
subtract_millis millis t =
    let b = borrow millis t.seconds t.milliseconds in
    if ltb millis t.milliseconds
    then record t { milliseconds = t.milliseconds - millis }
    else record b { milliseconds = floor b.milliseconds millis }

unfoldable pub subtract_time : Time → Time → Time
unfolding borrow
subtract_time u t =
    let b = borrow u.milliseconds t.seconds t.milliseconds in
    if not (ltb t.seconds u.seconds)
    then (if ltb u.milliseconds t.milliseconds
        then record {
          seconds = t.seconds - u.seconds;
          milliseconds = t.milliseconds - u.milliseconds;
        }
        else record {
          seconds = floor b.seconds u.seconds;
          milliseconds = floor b.milliseconds u.milliseconds;
        })
    else record { seconds = 0; milliseconds = 0 }

-- `Time::Time`, from what the platform's TimeStrategy read when the first Time was made, and reads now.
unfoldable pub now : Time → Time → Time
unfolding subtract_time
now first helper = subtract_time first helper
