-- ===== src/Lib.antt =====
-- ZThread, a C++ library of threads and synchronization objects for several platforms: a model of
-- its core, on POSIX, and of the monitors and locks that it has elsewhere. Paths are from the repository's root.
--
-- Every thread owns a Monitor (src/posix/Monitor.cxx), on which alone it ever blocks: a Status
-- (src/Status.h) holds the signals, interruptions, timeouts and cancellations that are pending, and an
-- interest mask. A synchronization object (src/SemaphoreImpl.h, src/MutexImpl.h,
-- src/RecursiveMutexImpl.cxx, src/ConditionImpl.h) keeps a list of the threads that wait for it and
-- its own lock `_lock`; a thread that has to wait joins the list, lets go of `_lock` and waits on its
-- monitor, and a thread that releases the object notifies the monitor of one listed thread. The
-- queues, the barrier and the read-write locks (include/zthread) are built of a lock and conditions.
--
-- Which file models which part:
--   Base: lists, numbers, tests and the integers that the others share.
--   Status: src/Status.h, over flags; Status/Word has it over 16-bit words, Status/Refinement and
--     Status/Order have the theorems.
--   State: src/State.h, the life cycle of a thread.
--   Monitor: src/posix/Monitor.h, src/posix/Monitor.cxx and src/DeferredInterruptionScope.h;
--     Monitor/Wait has `wait`, Monitor/Wakeups and Monitor/Sticky the theorems.
--   Exceptions: include/zthread/Exceptions.h.
--   Waiters: what the synchronization objects do with the listed threads and their monitors;
--     Waiters/Passes has the loops over the list, Waiters/Stay the time that a thread is blocked.
--   Scheduling: src/Scheduling.h.
--   Thread: src/ThreadImpl.h and src/ThreadImpl.cxx; Thread/Start and Thread/Exit have
--     the theorems.
--   ThreadQueue: src/ThreadQueue.h and src/ThreadQueue.cxx; ThreadQueue/Accounts is about the lists of
--     threads, ThreadQueue/Ending about the destructor.
--   Semaphore, Mutex, RecursiveMutex, Condition: src/SemaphoreImpl.h, src/MutexImpl.h (with
--     NullBehavior), src/RecursiveMutexImpl.h and src/RecursiveMutexImpl.cxx, src/ConditionImpl.h.
--     Mutex/System and Semaphore/System have any number of threads on one object, as a step relation;
--     Condition/Abstract joins a condition to the one that its users see.
--   Executor: src/PoolExecutor.cxx, src/ThreadedExecutor.cxx and src/SynchronousExecutor.cxx.
--     Executor/Groups is the WaiterQueue that the first two define, Executor/Pool, Executor/Worker and
--     Executor/Threaded are the rest of each.
--   InheritPriority: the hooks of src/PriorityInheritanceMutex.cxx.
--   RecursiveLock: src/vanilla/DualMutexRecursiveLock.h, with any number of threads.
--   Platform: the monitors of src/win32 and src/macos, and the locks of src/linux/AtomicFastLock.h,
--     src/vanilla/SimpleRecursiveLock.h, src/win32/AtomicFastRecursiveLock.h and
--     src/posix/ConditionRecursiveLock.h.
--   Counted, Intrusive: include/zthread/CountedPtr.h and src/IntrusivePtr.h; Counted/Atomic is the counter
--     of src/vanilla/SimpleAtomicCount.cxx.
--   ThreadLocal: include/zthread/ThreadLocal.h, ThreadLocalImpl.h and src/ThreadLocalImpl.cxx.
--   Guard: include/zthread/Guard.h, over any lock.
--   Blocking: a condition as its users see it, without its implementation, and how one go of a
--     method ends.
--   Queue: include/zthread/BoundedQueue.h, MonitoredQueue.h, BlockingQueue.h and
--     LockedQueue.h; Queue/Lockable has the locks that three of them hand out.
--   Barrier: include/zthread/Barrier.h.
--   Singleton: include/zthread/Singleton.h, with any number of threads.
--   Time: include/zthread/Time.h and src/Time.cxx.
--   ReadWrite: include/zthread/BiasedReadWriteLock.h and FairReadWriteLock.h.
--
-- A function of the source is a function of the model with its name in snake case, from the state
-- before to the state after with the result; a thread is a number, and a `ThreadImpl*` or `Monitor*` is
-- the number of its thread. What other threads do while `_lock` is free, and the calls on a monitor
-- while its owner blocks, are arguments, over which the theorems are quantified. A loop that may go
-- on for ever takes the list of what others do in each of its rounds, and `none` says that the list
-- is at its end and the loop goes on; the theorems name the rounds that are enough. Assertions are not
-- compiled in. Counters of 32 and 64 bits wrap around where they are unsigned (Barrier,
-- RecursiveMutex, RecursiveLock, Executor, Counted, Intrusive, Time, the deadline of Monitor/Wait); the
-- signed ones of Semaphore and ReadWrite are taken not to overflow.
--
-- Not modelled: the counts of references in the other parts, the classes of
-- include/zthread that forward every call to an implementation, the creation of native threads, whose
-- success is an argument, `std::sort`, which is one too, and the classes of the platforms that only call the
-- operating system. Its functions are not part of the repository: a lock of theirs excludes, a POSIX
-- condition wait may return at any time, an event of Windows or a semaphore of macOS ends a wait when it
-- is set or signaled or the time is over, and the atomic operations are single steps.
pub mod Base
pub mod Time
pub mod Status
pub mod State
pub mod Monitor
pub mod Exceptions
pub mod Waiters
pub mod Scheduling
pub mod Thread
pub mod ThreadQueue
pub mod Semaphore
pub mod Mutex
pub mod RecursiveMutex
pub mod Condition
pub mod Blocking
pub mod Counted
pub mod Platform
pub mod Singleton
pub mod ThreadLocal
pub mod InheritPriority
pub mod RecursiveLock
pub mod Guard
pub mod Intrusive
pub mod Executor
pub mod Queue
pub mod Barrier
pub mod ReadWrite
