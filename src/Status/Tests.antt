-- ===== src/Status/Tests.antt =====
-- src/Status.h: tests.
use zthread.Base.{◌≡◌, refl, false}
use zthread.Status.{State, Status, anything, only_signaled, only_interrupted, join, pending, next}
use zthread.Status.Word
use zthread.Status.Refinement.{encode_status, words_refine}
use zthread.Status.Order.{reported, next-reported}

-- A signal and an interruption are pending, and only signals are of interest.
abbrev deferred : Status
deferred = record { pending = join only_signaled only_interrupted; mask = only_signaled }

signal_goes_first : (next deferred).0 ≡ State.signaled
unfolding next
signal_goes_first = refl

words_refine_example :
    Word.next (encode_status false deferred) ≡ (Word.signaled, record { pending = 2; mask = 1 })
unfolding next
words_refine_example = (words_refine false only_interrupted deferred).0

next-reported_example : reported (next deferred).0 ≡ pending anything deferred
next-reported_example = (next-reported deferred).0
