-- ===== src/Barrier/Tests.antt =====
-- include/zthread/Barrier.h: tests.
use zthread.Base.{◌-◌, ◌^◌, ◌≡◌, refl, true, false, List, [], ◌∷◌, arith}
use zthread.Exceptions.{Exception}
use zthread.Blocking.{throws}
use zthread.Barrier.{Barrier, arrive, wake, shatter, completes, interrupted, signaled}
use zthread.Barrier.Trip.{arrive_all, awaiting, no_second_trip}
use zthread.Barrier.Broken
use zthread.Barrier.Broken.{run, arrives, wakes, shatters, broken_until_reset, wake_breaks}

-- Four threads come to a barrier for two that has tripped.
no_second_trip_example :
    arrive_all (1 ∷ 2 ∷ 3 ∷ 4 ∷ []) (awaiting 1 0 (1 ∷ []) [])
    ≡ awaiting 1 (2 ^ 32 - 4) (1 ∷ []) (1 ∷ 2 ∷ 3 ∷ 4 ∷ [])
no_second_trip_example = no_second_trip 1 1 (2 ∷ 3 ∷ 4 ∷ []) (1 ∷ []) (omega arith)

-- Thread 1 waits, and the barrier is shattered.
abbrev shattered : Barrier
shattered = shatter (awaiting 0 1 [] (1 ∷ []))

abbrev later : List Broken.Event
later = wakes 0 signaled ∷ arrives 2 false completes ∷ shatters ∷ []

broken_until_reset_example :
    arrive 4 false completes (run later shattered)
    ≡ throws Exception.broken_barrier (run later shattered)
unfolding shatter
broken_until_reset_example =
    (broken_until_reset later shattered 4 0 false completes interrupted refl).0

wake_breaks_example :
    wake 0 interrupted (awaiting 0 1 [] (1 ∷ 2 ∷ []))
    ≡ throws Exception.broken_barrier (record (awaiting 0 1 [] (1 ∷ 2 ∷ [])) { broken = true })
wake_breaks_example = (wake_breaks 0 (awaiting 0 1 [] (1 ∷ 2 ∷ []))).1 refl
