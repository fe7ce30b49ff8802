-- ===== src/Executor.antt =====
-- The executors of src/PoolExecutor.cxx, src/ThreadedExecutor.cxx and src/SynchronousExecutor.cxx.
pub mod Groups
pub mod Counts
pub mod Repeat
pub mod Pool
pub mod Generations
pub mod Refused
pub mod Worker
pub mod Threaded
pub mod Synchronous
pub mod Tests
