-- ===== src/Time/Tests.antt =====
-- include/zthread/Time.h: tests.
use zthread.Base.{◌-◌, ◌≡◌, refl, arith}
use zthread.Time.{Time, add_time, subtract_time, subtract_millis, borrow}
use zthread.Time.Arithmetic.{
  total, subtract_time-total, subtract_millis-total, subtract_time-add_time,
}

abbrev early : Time
early = record { seconds = 5; milliseconds = 200 }

abbrev late : Time
late = record { seconds = 5; milliseconds = 700 }

-- The subtraction of a later time in the same second borrows, and does not stop at 0.
beyond_floor : subtract_time late early ≡ record { seconds = 0; milliseconds = 500 }
unfolding subtract_time borrow
beyond_floor = refl

subtract_time-total_example : total (subtract_time early late) ≡ total late - total early
subtract_time-total_example =
    (subtract_time-total early late (omega arith) (omega arith) (omega arith)).0

subtract_millis-total_example : total (subtract_millis 1500 early) ≡ total early - 1500
subtract_millis-total_example = (subtract_millis-total 1500 early (omega arith) (omega arith)).0

subtract_time-add_time_example : subtract_time late (add_time late early) ≡ early
subtract_time-add_time_example =
    subtract_time-add_time late early (omega arith) (omega arith) (omega arith)
