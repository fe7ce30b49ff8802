-- ===== src/Queue.antt =====
-- The queues of include/zthread.
pub mod Blocking
pub mod Locked
pub mod Monitored
pub mod Bounded
pub mod History
pub mod Cancel
pub mod Unbounded
pub mod Unwaiting
pub mod Lockable
pub mod Tests
