-- ===== src/Queue/Lockable.antt =====
-- `acquire`, `tryAcquire` and `release` of include/zthread/BoundedQueue.h, MonitoredQueue.h and
-- BlockingQueue.h: a caller may hold a queue's own lock over several operations. The lock is an argument,
-- as in `Guard`.
use zthread.Base.{ℕ, Bool, true, false}
use zthread.Exceptions.{Result, ok, throw}
use zthread.Guard.{Lock, locked_scope, scoped}
use zthread.Guard.Scopes.{IsLock, Acquired, Tried, guard_restores}
use zthread.Queue.Bounded.{BoundedQueue}
use zthread.Queue.Monitored.{MonitoredQueue}
use zthread.Queue.Blocking.{BlockingQueue}

-- The functions of the lock of an object, with the object.
abbrev pub with_object : {A L Q : Type 0} → Q → A × L → A × (L × Q)
with_object q (a, l) = (a, (l, q))

abbrev pub bounded_lock : {L T : Type 0} → Lock L → Lock (L × BoundedQueue T)
bounded_lock k = record {
  acquire = λ s. with_object s.1 (k.acquire s.0);
  try_acquire = λ timeout s. with_object s.1 (k.try_acquire timeout s.0);
  release = λ s. with_object s.1 (k.release s.0);
}

abbrev pub monitored_lock : {L T : Type 0} → Lock L → Lock (L × MonitoredQueue T)
monitored_lock k = record {
  acquire = λ s. with_object s.1 (k.acquire s.0);
  try_acquire = λ timeout s. with_object s.1 (k.try_acquire timeout s.0);
  release = λ s. with_object s.1 (k.release s.0);
}

abbrev pub blocking_lock : {L T : Type 0} → Lock L → Lock (L × BlockingQueue T)
blocking_lock k = record {
  acquire = λ s. with_object s.1 (k.acquire s.0);
  try_acquire = λ timeout s. with_object s.1 (k.try_acquire timeout s.0);
  release = λ s. with_object s.1 (k.release s.0);
}

module _ {L : Type 0} (Free Held : L → Type 0) where
  acquires_object :
      {Q : Type 0} (q : Q) (x : Result (Unit {0}) × L)
      → Acquired Free Held x
      → Acquired {L = L × Q} (λ s. Free s.0) (λ s. Held s.0) (with_object q x)
  acquires_object q (ok _, l) a = a
  acquires_object q (throw _, l) a = a

  tries_object :
      {Q : Type 0} (q : Q) (x : Result Bool × L)
      → Tried Free Held x
      → Tried {L = L × Q} (λ s. Free s.0) (λ s. Held s.0) (with_object q x)
  tries_object q (ok true, l) a = a
  tries_object q (ok false, l) a = a
  tries_object q (throw _, l) a = a

module _ {L : Type 0} (Free Held : L → Type 0) (k : Lock L) (law : IsLock Free Held k)
    {T : Type 0} where
  bounded_lock-IsLock : IsLock (λ s. Free s.0) (λ s. Held s.0) (bounded_lock {T = T} k)
  bounded_lock-IsLock = record {
    acquires = λ s f. acquires_object Free Held s.1 (k.acquire s.0) (law.acquires s.0 f);
    tries = λ ms s f. tries_object Free Held s.1 (k.try_acquire ms s.0) (law.tries ms s.0 f);
    releases = λ s h. law.releases s.0 h;
  }

  monitored_lock-IsLock : IsLock (λ s. Free s.0) (λ s. Held s.0) (monitored_lock {T = T} k)
  monitored_lock-IsLock = record {
    acquires = λ s f. acquires_object Free Held s.1 (k.acquire s.0) (law.acquires s.0 f);
    tries = λ ms s f. tries_object Free Held s.1 (k.try_acquire ms s.0) (law.tries ms s.0 f);
    releases = λ s h. law.releases s.0 h;
  }

  -- A guard on a bounded queue itself: whatever is done to the queue in the guard's block, whether it could
  -- be locked, and whether the block throws, the queue's own lock is free again at its end, if the lock is
  -- held after it was acquired and free after `release`, and the block leaves it held.
  pub queue_guarded :
      {A : Type 0} (body : (L × BoundedQueue T) → Result A × (L × BoundedQueue T)) (timeout : ℕ)
      (s : L × BoundedQueue T)
      → Free s.0
      → ((r : L × BoundedQueue T) → Held r.0 → Held (body r).1.0)
      → Free (scoped (locked_scope (bounded_lock k)) body s).1.0
  queue_guarded body timeout s f b =
      (guard_restores (λ r. Free r.0) (λ r. Held r.0) (bounded_lock k) bounded_lock-IsLock body
        timeout s f b).0
