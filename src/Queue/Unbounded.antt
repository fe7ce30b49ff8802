-- ===== src/Queue/Unbounded.antt =====
-- include/zthread/MonitoredQueue.h beside include/zthread/BoundedQueue.h.
use zthread.Queue.Bounded.{BoundedQueue}
use zthread.Queue.Bounded
use zthread.Queue.Monitored.{MonitoredQueue}
use zthread.Queue.Monitored

module _ {ℓ} {T : Type ℓ} where
  -- A bounded queue without its bound.
  abbrev pub unbound : BoundedQueue T → MonitoredQueue T
  unbound q = record {
    not_empty = q.not_empty;
    is_empty = q.is_empty;
    queue = q.queue;
    canceled = q.canceled;
  }
