-- ===== src/ReadWrite/Biased/Exclusion.antt =====
-- include/zthread/BiasedReadWriteLock.h: any interleaving of its threads, and who is let in.
use zthread.Base.{ℕ, suc, ◌≤◌, ◌≡◌, refl, Bool, arith}
use zthread.Base.Int.{pos}
use zthread.Blocking.{Outcome, returns, waits, throws}
use zthread.ReadWrite.Biased.{
  ReadWriteLock, init, before_read, before_read_attempt, try_read, give_up_read, after_read, Choice,
  wake_chosen, before_write, before_write_attempt, try_write, give_up_write, after_write,
}

-- The lock with the number of threads that hold it for reading and for writing.
pub record Holders : Type 0 where
  pub lock : ReadWriteLock
  pub readers : ℕ
  pub writers : ℕ

abbrev pub start : Holders
start = record { lock = init; readers = 0; writers = 0 }

-- A thread that is let in, whatever its function answers, holds the lock.
abbrev pub reads : {A : Type 0} → Holders → Outcome ReadWriteLock A → Holders
reads h (returns a l) = record h { lock = l; readers = suc h.readers }
reads h (throws e l) = record h { lock = l }
reads h (waits l) = record h { lock = l }

abbrev pub writes : {A : Type 0} → Holders → Outcome ReadWriteLock A → Holders
writes h (returns a l) = record h { lock = l; writers = suc h.writers }
writes h (throws e l) = record h { lock = l }
writes h (waits l) = record h { lock = l }

-- One stay of some thread in `_lock`, or one signal after it. A thread releases only what it holds; a
-- retry, with whatever answer the attempt has by then, and giving up come after a wait.
pub data Step (h : Holders) : Holders → Type 0 where
  reads_first : (self : ℕ) → Step h (reads h (before_read self h.lock))
  attempts_read : (self : ℕ) → Step h (reads h (before_read_attempt self h.lock))
  reads_again : (self : ℕ) (answer : Bool) → Step h (reads h (try_read self answer h.lock))
  gives_up_read : Step h (record h { lock = give_up_read h.lock })
  leaves_read :
      (n : ℕ) → h.readers ≡ suc n → Step h (record h { lock = (after_read h.lock).1; readers = n })
  writes_first : (self : ℕ) → Step h (writes h (before_write self h.lock))
  attempts_write : (self : ℕ) → Step h (writes h (before_write_attempt self h.lock))
  writes_again : (self : ℕ) (answer : Bool) → Step h (writes h (try_write self answer h.lock))
  gives_up_write : Step h (record h { lock = give_up_write h.lock })
  leaves_write :
      (n : ℕ) → h.writers ≡ suc n → Step h (record h { lock = (after_write h.lock).1; writers = n })
  signals : (c : Choice) → Step h (record h { lock = wake_chosen c h.lock })

pub data Reach : Holders → Type 0 where
  here : Reach start
  next : {g h : Holders} → Reach g → Step g h → Reach h

-- The counters are the numbers of holders, and the holders exclude one another.
pub record Inv (h : Holders) : Type 0 where
  pub counts_readers : h.lock.active_readers ≡ pos h.readers
  pub counts_writers : h.lock.active_writers ≡ pos h.writers
  pub one_writer : h.writers ≤ 1
  pub alone : h.writers ≡ 1 → h.readers ≡ 0

Step-Inv : {g h : Holders} → Step g h → Inv g → Inv h
unfolding before_read before_read_attempt before_write before_write_attempt give_up_read after_read
    give_up_write after_write wake_chosen
Step-Inv (reads_first self) v = ground arith
Step-Inv (attempts_read self) v = ground arith
Step-Inv (reads_again self a) v = ground arith
Step-Inv gives_up_read v = ground arith
Step-Inv (leaves_read n e) v = ground arith
Step-Inv (writes_first self) v = ground arith
Step-Inv (attempts_write self) v = ground arith
Step-Inv (writes_again self a) v = ground arith
Step-Inv gives_up_write v = ground arith
Step-Inv (leaves_write n e) v = ground arith
Step-Inv (signals c) v = ground arith

-- Whatever threads come, wait, are woken, give up and leave, in whatever order, the counters of active
-- readers and writers are the numbers of threads that were let in and have not left; there is at most
-- one writer, and none beside a reader.
pub biased_exclusion : {h : Holders} → Reach h → Inv h
biased_exclusion here = record {
  counts_readers = refl;
  counts_writers = refl;
  one_writer = omega arith;
  alone = λ e. omega arith;
}
biased_exclusion (next r st) = Step-Inv st (biased_exclusion r)
