-- ===== src/ReadWrite/Biased.antt =====
-- include/zthread/BiasedReadWriteLock.h: it prefers writers. The counters are ints that do not wrap
-- here. Each function is one stay in `_lock`: an entry that waits is retried, by the same thread, when
-- it is woken and has the lock.
pub mod Exclusion
pub mod Attempt
use zthread.Base.{ℕ, Bool, true, false, ◌&&◌, List, [], if◌then◌else◌}
use zthread.Base.Int.{ℤ, pos, negsuc, suc_ℤ, pred_ℤ, is_positive, is_zero}
use zthread.Blocking.{Condition, quiet, signal, sleep, Outcome, returns, waits}

pub record ReadWriteLock : Type 0 where
  pub cond_read : Condition
  pub cond_write : Condition
  pub active_writers : ℤ
  pub active_readers : ℤ
  pub waiting_readers : ℤ
  pub waiting_writers : ℤ

abbrev pub init : ReadWriteLock
init = record {
  cond_read = quiet;
  cond_write = quiet;
  active_writers = pos 0;
  active_readers = pos 0;
  waiting_readers = pos 0;
  waiting_writers = pos 0;
}

abbrev pub allow_reader : ReadWriteLock → Bool
allow_reader l = is_zero l.active_writers

abbrev pub allow_writer : ReadWriteLock → Bool
allow_writer l = is_zero l.active_writers && is_zero l.active_readers

-- The loop of `beforeRead` and `beforeReadAttempt`, with what the function returns at its end.
unfoldable pub try_read : {A : Type 0} → ℕ → A → ReadWriteLock → Outcome ReadWriteLock A
try_read self result l =
    if allow_reader l
    then returns result (record l {
      waiting_readers = pred_ℤ l.waiting_readers;
      active_readers = suc_ℤ l.active_readers;
    })
    else waits (record l { cond_read = sleep self l.cond_read })

unfoldable pub before_read : ℕ → ReadWriteLock → Outcome ReadWriteLock (Unit {0})
unfolding try_read
before_read self l = try_read self tt (record l { waiting_readers = suc_ℤ l.waiting_readers })

unfoldable pub before_read_attempt : ℕ → ReadWriteLock → Outcome ReadWriteLock Bool
unfolding try_read
before_read_attempt self l =
    try_read self false (record l { waiting_readers = suc_ℤ l.waiting_readers })

-- The handlers of the two functions: the condition's wait threw.
unfoldable pub give_up_read : ReadWriteLock → ReadWriteLock
give_up_read l = record l { waiting_readers = pred_ℤ l.waiting_readers }

-- Whom `afterRead` and `afterWrite` signal, once they have let go of `_lock`.
pub data Choice : Type 0 where
  writer reader nobody : Choice

abbrev pub choose : ReadWriteLock → Choice
choose l =
    if is_positive l.waiting_writers
    then writer
    else if is_positive l.waiting_readers
    then reader
    else nobody

unfoldable pub after_read : ReadWriteLock → Choice × ReadWriteLock
after_read l = let l' = record l { active_readers = pred_ℤ l.active_readers } in (choose l', l')

unfoldable pub wake_chosen : Choice → ReadWriteLock → ReadWriteLock
wake_chosen writer l = record l { cond_write = signal l.cond_write }
wake_chosen reader l = record l { cond_read = signal l.cond_read }
wake_chosen nobody l = l

-- The loop of `beforeWrite` and `beforeWriteAttempt`, with what the function returns at its end.
unfoldable pub try_write : {A : Type 0} → ℕ → A → ReadWriteLock → Outcome ReadWriteLock A
try_write self result l =
    if allow_writer l
    then returns result (record l {
      waiting_writers = pred_ℤ l.waiting_writers;
      active_writers = suc_ℤ l.active_writers;
    })
    else waits (record l { cond_write = sleep self l.cond_write })

unfoldable pub before_write : ℕ → ReadWriteLock → Outcome ReadWriteLock (Unit {0})
unfolding try_write
before_write self l = try_write self tt (record l { waiting_writers = suc_ℤ l.waiting_writers })

unfoldable pub before_write_attempt : ℕ → ReadWriteLock → Outcome ReadWriteLock Bool
unfolding try_write
before_write_attempt self l =
    try_write self false (record l { waiting_writers = suc_ℤ l.waiting_writers })

unfoldable pub give_up_write : ReadWriteLock → ReadWriteLock
give_up_write l = record l { waiting_writers = pred_ℤ l.waiting_writers }

unfoldable pub after_write : ReadWriteLock → Choice × ReadWriteLock
after_write l = let l' = record l { active_writers = pred_ℤ l.active_writers } in (choose l', l')
