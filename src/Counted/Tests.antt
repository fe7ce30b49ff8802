-- ===== src/Counted/Tests.antt =====
-- include/zthread/CountedPtr.h: tests.
use zthread.Base.{◌≡◌, refl, arith, [], ◌∷◌}
use zthread.Counted.{CountedPtr, Heap, init, create, copy, assign}
use zthread.Counted.Once.{Reach, here, creates, assigns, sharing, deleted_once}

-- Two pointers are made, and the second is assigned the first.
abbrev made : Heap
made = (create 20 (create 10 init).1).1

abbrev first : CountedPtr
first = (create 10 init).0

abbrev second : CountedPtr
second = (create 20 (create 10 init).1).0

abbrev assigned : Heap
assigned = (assign first second made).1

assigned-Reach : Reach assigned ((assign first second made).0 ∷ first ∷ [])
assigned-Reach =
    assigns [] (first ∷ []) (second ∷ []) [] second first refl refl (omega arith)
      (creates 20 (omega arith) (creates 10 (omega arith) here))

deleted_once_example : (assigned.counts 1 ≡ 0) × (sharing 1 assigned.freed ≡ 1)
unfolding create assign copy
deleted_once_example = deleted_once 1 assigned-Reach (omega arith)
