-- ===== src/Monitor/Tests.antt =====
-- src/posix/Monitor.cxx: tests.
use zthread.Base.{
  ◌+◌, ◌*◌, ◌/◌, ◌≡◌, refl, inl, inr, true, false, Option, some, List, [], ◌∷◌, arith,
}
use zthread.Status.{State}
use zthread.Status
use zthread.Status.Order.{reported}
use zthread.Monitor.{
  Monitor, interrupts, notifies, init, interrupt, notify, cancel, is_canceled, perform, perform_all,
  defer_interruption,
}
use zthread.Monitor.Wait.{Clock, Timespec, Wakeup, ok, eintr, etimedout, deadline, wait}
use zthread.Monitor.Wakeups.{wait_returns, wait_spurious, wait_notified, deadline_lem}
use zthread.Monitor.Sticky.{wait-notify, wait-end_deferral, interrupt_lem, is_canceled-cancel}

abbrev epoch : Clock
epoch = record { seconds = 7; milliseconds = 900 }

abbrev held : Monitor
held = record init { locked = true }

-- An EINTR, then a notification and a timeout at the same time.
abbrev wakeups : Option Timespec → List Wakeup
wakeups _ =
    record { calls = []; errno = eintr } ∷ record { calls = notifies ∷ []; errno = etimedout } ∷ []

abbrev notified_at_once : Option Timespec → List Wakeup
notified_at_once _ = record { calls = notifies ∷ interrupts 4 ∷ []; errno = etimedout } ∷ []

abbrev spurious : Option Timespec → List Wakeup
spurious _ = record { calls = []; errno = ok } ∷ []

wait-notify_example : (notify held).0 ≡ true
wait-notify_example = (wait-notify 3 0 epoch spurious held refl refl).0

wait-end_deferral_example : (notify (interrupt 5 (defer_interruption held)).1).0 ≡ true
wait-end_deferral_example = (wait-end_deferral 3 0 5 epoch spurious held refl refl).0

interrupt_lem_example : (interrupt 5 held).1.status.pending.interrupted ≡ true
interrupt_lem_example = ((interrupt_lem 5 held).1 refl).0

is_canceled-cancel_example :
    (is_canceled 9 (perform_all (interrupts 5 ∷ []) (cancel held).1)).0 ≡ true
unfolding wait perform_all perform cancel Status.pending Status.next
is_canceled-cancel_example =
    (is_canceled-cancel 3 0 9 epoch spurious held (interrupts 5 ∷ []) (notifies ∷ [])
      {s = State.interrupted} refl).0

wait_returns_example :
    (s : State) × (m' : Monitor) × (wait 3 epoch 250 wakeups held ≡ some (s, m'))
    × (reported s ≡ true)
    × (m'.locked ≡ true)
    × (m'.waiting ≡ false)
wait_returns_example =
    wait_returns 3 250 epoch wakeups held refl refl refl (inr (inl refl))
      ((λ e. cc), ((λ e. cc), tt))

wait_spurious_example : (m' : Monitor) × (wait 3 epoch 0 spurious held ≡ some (State.invalid, m'))
unfolding perform_all Status.pending
wait_spurious_example = wait_spurious 3 0 epoch spurious held [] [] refl refl refl

wait_notified_example :
    (m' : Monitor) × (wait 3 epoch 250 notified_at_once held ≡ some (State.signaled, m'))
    × (m'.status.pending.timedout ≡ false)
unfolding perform_all Status.pending
wait_notified_example =
    wait_notified 3 250 epoch notified_at_once held [] (interrupts 4 ∷ []) etimedout [] refl refl
      refl refl

deadline_lem_example :
    (deadline epoch 250).tv_sec * 1000 + (deadline epoch 250).tv_nsec / 1000000 ≡ 8150
deadline_lem_example = (deadline_lem epoch 250 (omega arith) (omega arith)).1
