-- ===== src/State/Tests.antt =====
-- src/State.h: tests.
use zthread.Base.{◌≤◌, ◌≡◌, refl, false, List, [], ◌∷◌}
use zthread.State
use zthread.State.{
  Stage, set_idle, set_running, rank, run, to_idle, to_starting, to_running, to_joined,
  set_idle_refused, rank-run,
}

abbrev life : List State.Transition
life = to_starting ∷ to_running ∷ to_idle ∷ to_joined ∷ to_starting ∷ []

life_ends : run life Stage.idle ≡ Stage.joined
unfolding run State.step
life_ends = refl

set_idle_refused_example : set_idle Stage.starting ≡ (false, Stage.starting)
set_idle_refused_example = set_idle_refused Stage.starting

rank-run_example : rank Stage.idle ≤ rank (run life Stage.idle)
rank-run_example = rank-run life Stage.idle
