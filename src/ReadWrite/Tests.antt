-- ===== src/ReadWrite/Tests.antt =====
-- The two read-write locks of include/zthread: tests.
use zthread.Base.{◌≡◌, refl, false, some}
use zthread.Base.Int.{pos}
use zthread.Blocking.{returns}
use zthread.ReadWrite.Biased
use zthread.ReadWrite.Biased.Exclusion as BiasedRun
use zthread.ReadWrite.Biased.Exclusion.{biased_exclusion}
use zthread.ReadWrite.Biased.Attempt.{attempt_untold}
use zthread.ReadWrite.Fair
use zthread.ReadWrite.Fair.Exclusion as FairRun
use zthread.ReadWrite.Fair.Exclusion.{fair_exclusion}

attempt_untold_example :
    Biased.before_read_attempt 1 Biased.init
    ≡ returns false (record Biased.init { active_readers = pos 1 })
attempt_untold_example = (attempt_untold 1 Biased.init).0 refl

-- Thread 1 reads, and thread 2 wants to write.
biased_exclusion_example : BiasedRun.Inv (
    BiasedRun.writes (BiasedRun.reads BiasedRun.start (Biased.before_read 1 BiasedRun.start.lock)) (
      Biased.before_write 2
        (BiasedRun.reads BiasedRun.start (Biased.before_read 1 BiasedRun.start.lock)).lock))
biased_exclusion_example = biased_exclusion (
    BiasedRun.next (BiasedRun.next BiasedRun.here (BiasedRun.reads_first 1))
      (BiasedRun.writes_first 2))

-- Thread 1 has the lock for writing.
fair_exclusion_example :
    FairRun.Inv (record { lock = record Fair.init { holder = some 1 }; reading = 0 })
unfolding Fair.write_acquire
fair_exclusion_example = fair_exclusion (FairRun.next FairRun.here (FairRun.writes 1 refl))
