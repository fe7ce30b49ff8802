-- ===== src/Barrier/Broken.antt =====
-- include/zthread/Barrier.h: how the barrier breaks, and that it stays broken until it is reset.
use zthread.Base.{ℕ, ◌≡◌, refl, Bool, true, List, [], ◌∷◌, arith}
use zthread.Exceptions.{Exception}
use zthread.Blocking.{Outcome, returns, throws, waits, state}
use zthread.Barrier.{
  Barrier, TaskRun, Wake, signaled, timed_out, interrupted, failed, arrive, wake, shatter,
}

-- What happens to a barrier between two resets.
pub data Event : Type 0 where
  arrives : ℕ → Bool → TaskRun → Event
  wakes : (generation : ℕ) → Wake → Event
  shatters : Event

unfoldable pub step : Event → Barrier → Barrier
unfolding arrive wake shatter
step (arrives t i task) b = state (arrive t i task b)
step (wakes g w) b = state (wake g w b)
step shatters b = shatter b

unfoldable pub run : List Event → Barrier → Barrier
run [] b = b
run (e ∷ es) b = run es (step e b)

step-broken : (e : Event) (b : Barrier) → b.broken ≡ true → (step e b).broken ≡ true
unfolding step
step-broken (arrives t i task) b h = ground arith
step-broken (wakes g signaled) b h = ground arith
step-broken (wakes g timed_out) b h = ground arith
step-broken (wakes g interrupted) b h = ground arith
step-broken (wakes g failed) b h = ground arith
step-broken shatters b h = ground arith

run-broken : (es : List Event) (b : Barrier) → b.broken ≡ true → (run es b).broken ≡ true
unfolding run
run-broken [] b h = h
run-broken (e ∷ es) b h = run-broken es (step e b) (step-broken e b h)

abbrev pub Throws : Outcome Barrier (Unit {0}) → Type 0
Throws (returns a b) = ⊥
Throws (throws e b) = Unit
Throws (waits b) = ⊥

arrive-broken :
    (t : ℕ) (i : Bool) (task : TaskRun) (b : Barrier)
    → b.broken ≡ true
    → arrive t i task b ≡ throws Exception.broken_barrier b
unfolding arrive
arrive-broken t i task b h = rw h

wake-broken : (g : ℕ) (w : Wake) (b : Barrier) → b.broken ≡ true → Throws (wake g w b)
unfolding wake
wake-broken g signaled b h = rw h tt
wake-broken g timed_out b h = tt
wake-broken g interrupted b h = ground arith
wake-broken g failed b h = tt

-- Once the barrier is broken it stays so until it is reset, whatever arrives, wakes or shatters it:
-- each thread that arrives leaves with BrokenBarrier_Exception and changes nothing, and each that
-- wakes leaves with an exception, however its wait ended and whichever generation it waited for.
pub broken_until_reset :
    (es : List Event) (b : Barrier) (t g : ℕ) (i : Bool) (task : TaskRun) (w : Wake)
    → b.broken ≡ true
    → (arrive t i task (run es b) ≡ throws Exception.broken_barrier (run es b))
      × Throws (wake g w (run es b))
broken_until_reset es b t g i task w h =
    (arrive-broken t i task (run es b) (run-broken es b h), wake-broken g w _ (run-broken es b h))

-- A thread whose wait ends by a timeout, or by an interruption before the others arrived, breaks the
-- barrier and leaves with BrokenBarrier_Exception; it wakes nobody, so the threads that wait go on
-- waiting.
pub wake_breaks :
    (g : ℕ) (b : Barrier)
    → (let b' = record b { broken = true } in
        (wake g timed_out b ≡ throws Exception.broken_barrier b')
        × (g ≡ b.generation → wake g interrupted b ≡ throws Exception.broken_barrier b')
        × (b'.arrived ≡ b.arrived))
unfolding wake
wake_breaks g b = (refl, λ e. ground arith, refl)
