-- ===== src/ReadWrite/Biased/Attempt.antt =====
-- `tryAcquire` of the locks of include/zthread/BiasedReadWriteLock.h.
use zthread.Base.{ℕ, ◌≡◌, true, false}
use zthread.Base.Int.{suc_ℤ, pred-suc}
use zthread.Blocking.{returns}
use zthread.ReadWrite.Biased.{
  ReadWriteLock, allow_reader, allow_writer, before_read_attempt, before_write_attempt,
}

-- An attempt that need not wait gets the lock, and answers false: the thread counts as a reader, or as
-- the writer, and is told that it is not.
pub attempt_untold :
    (self : ℕ) (l : ReadWriteLock)
    → (allow_reader l ≡ true
        → before_read_attempt self l
          ≡ returns false (record l { active_readers = suc_ℤ l.active_readers }))
      × (allow_writer l ≡ true
          → before_write_attempt self l
            ≡ returns false (record l { active_writers = suc_ℤ l.active_writers }))
unfolding before_read_attempt before_write_attempt
attempt_untold self l = (λ h. rw (h, pred-suc), λ h. rw (h, pred-suc))
