-- ===== src/State.antt =====
-- src/State.h: the life cycle of a thread.
pub mod Tests
use zthread.Base.{ℕ, ◌≤◌, ◌≡◌, Bool, true, false, not, ◌||◌, if◌then◌else◌, List, [], ◌∷◌, arith}

pub data Stage : Type 0 where
  reference idle starting running joined : Stage

abbrev pub is_idle : Stage → Bool
is_idle Stage.idle = true
is_idle _ = false

abbrev pub is_joined : Stage → Bool
is_joined Stage.joined = true
is_joined _ = false

abbrev pub is_running : Stage → Bool
is_running Stage.running = true
is_running _ = false

abbrev pub is_starting : Stage → Bool
is_starting Stage.starting = true
is_starting _ = false

abbrev pub is_reference : Stage → Bool
is_reference Stage.reference = true
is_reference _ = false

-- Each transition answers whether it was made.
unfoldable pub set_idle : Stage → Bool × Stage
set_idle s = if not (is_running s) || not (is_starting s) then (false, s) else (true, Stage.idle)

unfoldable pub set_starting : Stage → Bool × Stage
set_starting s = if not (is_idle s) then (false, s) else (true, Stage.starting)

unfoldable pub set_running : Stage → Bool × Stage
set_running s = if not (is_starting s) then (false, s) else (true, Stage.running)

unfoldable pub set_reference : Stage → Bool × Stage
set_reference s = if not (is_idle s) then (false, s) else (true, Stage.reference)

unfoldable pub set_joined : Stage → Bool × Stage
set_joined s = (true, Stage.joined)

pub data Transition : Type 0 where
  to_idle to_starting to_running to_reference to_joined : Transition

unfoldable pub step : Transition → Stage → Stage
unfolding set_idle set_starting set_running set_reference set_joined
step to_idle s = (set_idle s).1
step to_starting s = (set_starting s).1
step to_running s = (set_running s).1
step to_reference s = (set_reference s).1
step to_joined s = (set_joined s).1

unfoldable pub run : List Transition → Stage → Stage
run [] s = s
run (t ∷ ts) s = run ts (step t s)

-- How far a thread has come.
abbrev pub rank : Stage → ℕ
rank Stage.idle = 0
rank Stage.reference = 1
rank Stage.starting = 1
rank Stage.running = 2
rank Stage.joined = 3

-- No stage can go back to idle: `setIdle` refuses in every stage, also in those that the spawning
-- code calls it in.
pub set_idle_refused : (s : Stage) → set_idle s ≡ (false, s)
unfolding set_idle
set_idle_refused s = ground arith

rank-step : (t : Transition) (s : Stage) → rank s ≤ rank (step t s)
unfolding step
rank-step to_idle s = ground arith
rank-step to_starting s = ground arith
rank-step to_running s = ground arith
rank-step to_reference s = ground arith
rank-step to_joined s = ground arith

-- Whatever transitions are asked for, in whatever order, a thread never goes back: IDLE, then
-- REFERENCE or STARTING, then RUNNING, then JOINED.
pub rank-run : (ts : List Transition) (s : Stage) → rank s ≤ rank (run ts s)
unfolding run
rank-run [] s = omega arith
rank-run (t ∷ ts) s = omega (arith, rank-step t s, rank-run ts (step t s))
