-- ===== src/Platform/Tests.antt =====
-- src/win32/Monitor.cxx, src/macos/Monitor.cxx and the locks of the platforms: tests.
use zthread.Base.{ℕ, ◌≡◌, refl, true, false, none, some, List, [], ◌∷◌, arith}
use zthread.Base.Int.{negsuc}
use zthread.Status.{State, only_signaled}
use zthread.Status
use zthread.Status.Order.{reported}
use zthread.Monitor.{interrupts, cancels, notifies, tests_interrupted}
use zthread.Monitor
use zthread.Monitor.Wait.{Clock}
use zthread.Monitor.Wait
use zthread.Platform.Once.{wakeup}
use zthread.Platform.Windows
use zthread.Platform.Windows.Same.{posix, answer, windows_is_posix, windows_wait_refines}
use zthread.Platform.Windows.Prompt.{windows_wait_reports}
use zthread.Platform.Macos
use zthread.Platform.Macos.Same.{posix as posix_of, macos_wait_refines}
use zthread.Platform.Macos.Lost.{macos_notify_lost}
use zthread.Platform.Spin
use zthread.Platform.Spin.Exclusion.{contested, rounds, spin_exclusion, spin_livelock}
use zthread.Platform.Recursive.{
  simple_init, simple_try, simple_release, conditional_acquire, conditional_try,
  conditional_release,
}
use zthread.Platform.Recursive.Agreement.{
  Op, tries, releases, simple_run, atomic_run, atomic, conditional_run, conditional,
  recursive_locks_agree,
}
use zthread.Platform.Recursive.Exclusion
use zthread.Platform.Recursive.Exclusion.{recursive_exclusion}
use zthread.Platform.Recursive.Robbed.{robbed, held_by, barged, condition_lock_robbed}

abbrev epoch : Clock
epoch = record { seconds = 7; milliseconds = 900 }

abbrev held : Windows.Monitor
held = record Windows.init { locked = true }

-- A thread that asks for the predicate lock of a condition again.
abbrev relocking : Macos.Monitor
relocking = record Macos.init {
  locked = true;
  status = record { pending = Status.no_flags; mask = only_signaled };
}

windows_is_posix_example :
    (k : ℕ) × (Monitor.perform_all (interrupts 4 ∷ tests_interrupted ∷ notifies ∷ []) (posix held 0)
      ≡ posix (Windows.perform_all (interrupts 4 ∷ tests_interrupted ∷ notifies ∷ []) held) k)
    × ((Windows.perform cancels
          (Windows.perform_all (interrupts 4 ∷ tests_interrupted ∷ notifies ∷ []) held)).0
        ≡ answer cancels
            (Monitor.perform_all (interrupts 4 ∷ tests_interrupted ∷ notifies ∷ []) (posix held 0)))
windows_is_posix_example =
    windows_is_posix (interrupts 4 ∷ tests_interrupted ∷ notifies ∷ []) cancels held 0

windows_wait_refines_example :
    (k : ℕ) × (Wait.wait 3 epoch 250
        (λ _. wakeup (notifies ∷ interrupts 4 ∷ []) true ∷ [])
        (posix held 0)
      ≡ some (
        State.signaled,
        posix
            (record held {
              owner = some 3;
              status = record { pending = Status.only_interrupted; mask = Status.anything };
            })
            k,
      ))
unfolding Windows.wait Windows.perform_all Windows.perform Windows.notify Windows.interrupt
    Windows.wait_end Status.pending Status.masked Status.push Status.next
windows_wait_refines_example =
    windows_wait_refines 3 250 epoch (notifies ∷ interrupts 4 ∷ []) true held 0 refl

windows_wait_reports_example : reported State.interrupted ≡ true
unfolding Windows.wait Windows.perform_all Windows.perform Windows.cancel Windows.wait_end
    Status.pending Status.masked Status.push Status.next
windows_wait_reports_example =
    windows_wait_reports 3 0 (cancels ∷ []) false held {s = State.interrupted} refl (λ e. cc) refl
      (tt, tt) refl

-- A thread of macOS that listens to everything.
abbrev listening : Macos.Monitor
listening = record Macos.init { locked = true }

macos_wait_refines_example :
    (k : ℕ) × (Wait.wait 3 epoch 250
        (λ _. wakeup (notifies ∷ interrupts 4 ∷ []) true ∷ [])
        (posix_of listening 0)
      ≡ some (
        State.signaled,
        posix_of
            (record listening {
              owner = some 3;
              status = record { pending = Status.only_interrupted; mask = Status.anything };
            })
            k,
      ))
unfolding Macos.wait Macos.perform_all Macos.perform Macos.notify Macos.interrupt Macos.wait_end
    Status.pending Status.masked Status.push Status.next
macos_wait_refines_example =
    macos_wait_refines 3 250 epoch (notifies ∷ interrupts 4 ∷ []) true listening 0 refl

macos_notify_lost_example :
    (Macos.wait 3 250 (interrupts 4 ∷ notifies ∷ []) true relocking ≡ none)
    × ((m' : Monitor.Monitor) × (Wait.wait 3 epoch 250
            (λ _. wakeup (interrupts 4 ∷ notifies ∷ []) false ∷ [])
            (posix_of relocking 0)
          ≡ some (State.signaled, m')))
unfolding Status.pending
macos_notify_lost_example =
    macos_notify_lost 3 4 250 epoch true relocking 0 refl refl refl refl refl

-- Thread 1 holds the spin lock, and thread 2 has failed to take it.
abbrev spun : Spin.System
spun = record { value = negsuc 0; holders = 1 ∷ []; failed = 2 ∷ [] }

spun-Reach : Spin.Reach spun
unfolding Spin.attempt
spun-Reach = Spin.next (Spin.next Spin.here (Spin.attempts 1)) (Spin.attempts 2)

spin_exclusion_example : (Spin.dec_and_test (negsuc 0)).0 ≡ false
spin_exclusion_example = (spin_exclusion spun-Reach).1

spin_livelock_example :
    Spin.Reach (contested 2) × Spin.Spins (contested 2) (rounds 1 2 25) (contested 2)
spin_livelock_example = spin_livelock 1 2 25 refl

-- Thread 3 locks twice, thread 4 tries, thread 3 unlocks twice, and thread 4 tries again.
abbrev traffic : List Op
traffic = tries 3 ∷ tries 3 ∷ tries 4 ∷ releases ∷ releases ∷ tries 4 ∷ []

traffic_answers : (simple_run traffic simple_init).0 ≡ true ∷ true ∷ false ∷ true ∷ []
unfolding simple_try simple_release
traffic_answers = refl

recursive_locks_agree_example :
    (atomic_run traffic (atomic simple_init)
      ≡ ((simple_run traffic simple_init).0, atomic (simple_run traffic simple_init).1))
    × ((j : ℕ) × (conditional_run traffic (conditional simple_init 0)
          ≡ ((simple_run traffic simple_init).0, conditional (simple_run traffic simple_init).1 j)))
recursive_locks_agree_example =
    recursive_locks_agree traffic simple_init 0 (refl, (refl, (refl, (refl, tt)))) tt

abbrev locked_twice : Exclusion.System
locked_twice = Exclusion.tried 3 (Exclusion.tried 4 (Exclusion.tried 3 Exclusion.start))

locked_twice-Reach : Exclusion.Reach locked_twice
unfolding simple_try
locked_twice-Reach =
    Exclusion.next
      (Exclusion.next (Exclusion.next Exclusion.here (Exclusion.tries 3 (omega arith)))
        (Exclusion.tries 4 (omega arith)))
      (Exclusion.tries 3 (omega arith))

recursive_exclusion_example :
    (◌≡◌ {A = ℕ} 3 3)
    × (locked_twice.lock.owner ≡ some 3)
    × (locked_twice.lock.count ≡ locked_twice.depth 3)
unfolding simple_try
recursive_exclusion_example = recursive_exclusion locked_twice-Reach 3 3 (omega arith) (omega arith)

condition_lock_robbed_example :
    (conditional_acquire 5 (record { others = barged 7; eintr = false } ∷ []) (held_by 6 1)
      ≡ some (robbed 5 1))
    × ((conditional_try 7 (robbed 5 1)).0 ≡ false)
    × ((conditional_try 7 (conditional_release (robbed 5 1))).0 ≡ false)
condition_lock_robbed_example = condition_lock_robbed 5 6 7 1 [] refl refl refl refl
