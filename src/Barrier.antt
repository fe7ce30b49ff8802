-- ===== src/Barrier.antt =====
-- include/zthread/Barrier.h. `parties` is the template's Count; `_count` and `_generation` are
-- unsigned ints of 32 bits. A call of `wait` is one go, `arrive`, and, if that waits, a second one,
-- `wake`, when the thread has the lock again. The task is an argument: what its `run` does.
pub mod Trip
pub mod Broken
pub mod Tests
use zthread.Base.{
  ℕ, ◌+◌, ◌-◌, ◌%◌, ◌^◌, Bool, true, false, List, [], ◌∷◌, ◌++◌, ◌==◌, if◌then◌else◌,
}
use zthread.Exceptions.{Exception}
use zthread.Blocking.{Condition, quiet, broadcast, sleep, Outcome, returns, throws, waits}

pub record Barrier : Type 0 where
  pub broken : Bool
  pub count : ℕ
  pub generation : ℕ
  pub arrived : Condition

-- What the task does, if there is one: it comes back, it throws a Synchronization_Exception of some
-- kind, or it throws something else, which is swallowed where assertions are not compiled in.
pub data TaskRun : Type 0 where
  completes fails_with_other : TaskRun
  fails : Exception → TaskRun

abbrev pub init : ℕ → Barrier
init parties = record { broken = false; count = parties; generation = 0; arrived = quiet }

abbrev pub u32 : ℕ → ℕ
u32 n = n % 2 ^ 32

abbrev pub next_generation : Barrier → Barrier
next_generation b = record b { generation = u32 (b.generation + 1) }

abbrev pub break : Barrier → Barrier
break b = record b { broken = true }

-- The last thread to arrive.
abbrev pub run_task : TaskRun → Barrier → Outcome Barrier (Unit {0})
run_task completes b = returns tt (next_generation b)
run_task (fails e) b = throws e (break b)
run_task fails_with_other b = returns tt b

abbrev pub wake_all : Barrier → Barrier
wake_all b = record b { arrived = broadcast b.arrived }

-- `wait`, up to the condition's wait. The second argument is what `Thread::interrupted()` answers.
-- With a timeout it is the same, but for `true` in place of nothing as the result.
unfoldable pub arrive : ℕ → Bool → TaskRun → Barrier → Outcome Barrier (Unit {0})
arrive self interrupted task b =
    let counted = record b { count = u32 (b.count + 2 ^ 32 - 1) } in
    if b.broken
    then throws Exception.broken_barrier b
    else if interrupted
    then throws Exception.interrupted (break (wake_all b))
    else if counted.count == 0
    then run_task task (wake_all counted)
    else waits (record counted { arrived = sleep self counted.arrived })

-- How the condition's wait ends: it returns, with a timeout perhaps without a signal, or it throws.
pub data Wake : Type 0 where
  signaled timed_out interrupted failed : Wake

abbrev pub unless_broken : Barrier → Outcome Barrier (Unit {0})
unless_broken b = if b.broken then throws Exception.broken_barrier b else returns tt b

-- The rest of `wait`, from the condition's wait on. The first argument is `myGeneration`. Where the
-- generation has changed an interruption is passed on to the thread itself, `Thread().interrupt()`.
unfoldable pub wake : ℕ → Wake → Barrier → Outcome Barrier (Unit {0})
wake generation signaled b = unless_broken b
wake generation timed_out b = unless_broken (break b)
wake generation interrupted b =
    if generation == b.generation then unless_broken (break b) else unless_broken b
wake generation failed b = throws Exception.synchronization (break b)

unfoldable pub shatter : Barrier → Barrier
shatter b = wake_all (break b)

unfoldable pub reset : ℕ → Barrier → Barrier
reset parties b = record (next_generation b) { broken = false; count = parties }
