-- ===== src/Mutex/System/Broken.antt =====
-- src/MutexImpl.h where a thread is interrupted while another is in `release`.
use zthread.Base.{◌≡◌, refl, true, false}
use zthread.Status.{State}
use zthread.Status
use zthread.Monitor
use zthread.Monitor.{interrupt, acquire, release}
use zthread.Monitor.Wait.{wait_over, ok as success}
use zthread.Monitor.Inversion.{consumed}
use zthread.Waiters.{update, remove, attempt}
use zthread.Waiters.Passes.{wake_kept}
use zthread.Waiters.Laws.{notified}
use zthread.Mutex.{finish_acquire, release_pass}
use zthread.Mutex.System.{
  System, Pc, start, taken, queued, asleep, back, woken, relocked, resumed, passed, shared, give_up,
  takes, queues, blocks, passes, wakes, reacquires, resumes, releases, retries, interrupted,
  Disturbed, undisturbed, then, interrupts,
}

-- Thread 1 owns the mutex and thread 2 is on its way to wait when thread 1 releases: it backs off.
abbrev backed_off : System
backed_off = let s = queued 2 (taken 1 start) in passed 1 false (shared (give_up s.mutex) s) s

-- Thread 2 is interrupted and leaves; thread 3 takes the free mutex and thread 4 waits for it.
abbrev contended : System
contended =
    let s = interrupted 1 2 backed_off in
    asleep 4 (
      queued 4 (
        taken 3
          (resumed 2 State.interrupted (back 2 (State.interrupted, consumed 2 (s.monitors 2)) s))))

backed_off-Disturbed : Disturbed backed_off
unfolding release_pass wake_kept attempt acquire Monitor.try_acquire
backed_off-Disturbed =
    then (then (then undisturbed (takes 1 refl refl refl)) (queues 2 refl refl refl))
      (releases 1 false _ refl refl refl)

contended-Disturbed : Disturbed contended
unfolding interrupt Status.pending Status.push Status.masked Status.next finish_acquire remove
    acquire release
contended-Disturbed =
    then
      (then
        (then
          (then (then (interrupts 1 2 backed_off-Disturbed) (passes 2 refl refl))
            (resumes 2 State.interrupted refl))
          (takes 3 refl refl refl))
        (queues 4 refl refl refl))
      (blocks 4 refl refl)

-- Thread 1 goes on with its release, and notifies thread 4 although thread 3 owns the mutex.
abbrev told : System
told =
    passed 1 true
      (record (shared contended.mutex contended) {
        monitors = update contended.monitors 4 (notified (contended.monitors 4));
      })
      contended

abbrev both : System
both =
    resumed 4 State.signaled
      (relocked 4 State.signaled (woken 4 (wait_over success (told.monitors 4)) told))

-- An interruption during another thread's release lets two threads own the mutex at once.
exclusion_lost : Disturbed both × (both.pc 3 ≡ Pc.owning) × (both.pc 4 ≡ Pc.owning)
unfolding release_pass wake_kept attempt Monitor.try_acquire Monitor.notify wait_over Status.pending
    Status.push Status.next finish_acquire remove acquire release interrupt
exclusion_lost = (
  then
      (then (then (then contended-Disturbed (retries 1 true _ refl refl)) (wakes 4 refl))
        (reacquires 4 State.signaled refl refl))
      (resumes 4 State.signaled refl),
  refl,
  refl,
)
