-- ===== src/ReadWrite.antt =====
-- The two read-write locks of include/zthread.
pub mod Biased
pub mod Fair
pub mod Tests
