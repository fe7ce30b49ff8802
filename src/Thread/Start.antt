-- ===== src/Thread/Start.antt =====
-- `ThreadImpl::start` and `ThreadImpl::dispatch` of src/ThreadImpl.cxx: the life of a thread.
use zthread.Base.{ℕ, ◌≡◌, refl, Bool, true, false, arith}
use zthread.Exceptions.{Exception, throw}
use zthread.State.{is_idle, is_joined}
use zthread.Waiters.{Monitors}
use zthread.Thread.{Thread, is_active, start, begin, finish}

-- A thread that is idle and can be spawned starts, with its own priority or that of its parent; it is
-- active from then until its task is over, and joined afterwards, and it cannot be started a
-- second time at any point.
pub life :
    (parent t : Thread) (others : ℕ → Monitors → Monitors) (ms : Monitors) (spawned : Bool)
    → is_idle t.stage ≡ true
    → let started = (start true parent t).1 in
      let running = begin started in
      let done = (finish others (record { object = running; monitors = ms })).object in
      (is_active started ≡ true)
      × (is_active running ≡ true)
      × (is_joined done.stage ≡ true)
      × (start spawned parent started ≡ (throw Exception.invalid_op, started))
      × (start spawned parent running ≡ (throw Exception.invalid_op, running))
      × (start spawned parent done ≡ (throw Exception.invalid_op, done))
unfolding start begin finish
life parent t others ms spawned h =
    (ground arith, ground arith, refl, ground arith, ground arith, ground arith)

-- A thread that could not be spawned is left as if it were starting: it counts as active, and every
-- later attempt to start it is refused.
pub start_failed :
    (parent t : Thread) (spawned : Bool)
    → is_idle t.stage ≡ true
    → let (r, failed) = start false parent t in
      (r ≡ throw Exception.synchronization)
      × (is_active failed ≡ true)
      × (start spawned parent failed ≡ (throw Exception.invalid_op, failed))
unfolding start
start_failed parent t spawned h = (ground arith, ground arith, ground arith)
