-- ===== src/ReadWrite/Fair/Exclusion.antt =====
-- include/zthread/FairReadWriteLock.h: any interleaving of its threads, and who is let in.
use zthread.Base.{ℕ, suc, ◌≡◌, ◌≢◌, refl, Bool, none, some, arith, if◌then◌else◌}
use zthread.Base.Int.{pos}
use zthread.Blocking.{state}
use zthread.ReadWrite.Fair.{
  ReadWriteLock, init, read_acquire, read_try_acquire, read_release, write_acquire,
  write_try_acquire, write_release,
}

-- The lock with the number of threads that hold it for reading.
pub record Holders : Type 0 where
  pub lock : ReadWriteLock
  pub reading : ℕ

abbrev pub start : Holders
start = record { lock = init; reading = 0 }

-- One stay of some thread in the mutex, which is free when it begins; a writer that was let in ends
-- its stay only when it releases. A thread releases only what it holds.
pub data Step (h : Holders) : Holders → Type 0 where
  reads :
      h.lock.holder ≡ none → Step h (record { lock = read_acquire h.lock; reading = suc h.reading })
  attempts_read :
      (b : Bool)
      → h.lock.holder ≡ none
      → Step h (record {
        lock = (read_try_acquire b h.lock).1;
        reading = if (read_try_acquire b h.lock).0 then suc h.reading else h.reading;
      })
  leaves_read :
      (n : ℕ)
      → h.lock.holder ≡ none
      → h.reading ≡ suc n
      → Step h (record { lock = read_release h.lock; reading = n })
  writes :
      (self : ℕ)
      → h.lock.holder ≡ none
      → Step h (record h { lock = state (write_acquire self h.lock) })
  attempts_write :
      (b : Bool) (self : ℕ)
      → h.lock.holder ≡ none
      → Step h (record h { lock = state (write_try_acquire b self h.lock) })
  leaves_write :
      (self : ℕ) → h.lock.holder ≡ some self → Step h (record h { lock = write_release h.lock })

pub data Reach : Holders → Type 0 where
  here : Reach start
  next : {g h : Holders} → Reach g → Step g h → Reach h

pub record Inv (h : Holders) : Type 0 where
  pub counts : h.lock.readers ≡ pos h.reading
  pub alone : h.lock.holder ≢ none → h.reading ≡ 0

Step-Inv : {g h : Holders} → Step g h → Inv g → Inv h
unfolding read_acquire read_try_acquire read_release write_acquire write_try_acquire write_release
Step-Inv (reads e) v = ground arith
Step-Inv (attempts_read b e) v = ground arith
Step-Inv (leaves_read n e r) v = ground arith
Step-Inv (writes self e) v = ground arith
Step-Inv (attempts_write b self e) v = ground arith
Step-Inv (leaves_write self e) v = ground arith

-- Whatever threads come, wait, are woken and leave, in whatever order, `_readers` is the number of
-- threads that read, and while a writer holds the lock there are none.
pub fair_exclusion : {h : Holders} → Reach h → Inv h
fair_exclusion here = record { counts = refl; alone = λ e. refl }
fair_exclusion (next r st) = Step-Inv st (fair_exclusion r)
