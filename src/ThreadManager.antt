-- ===== src/ThreadManager.antt =====
-- common/thread_manager/ThreadManager.{hpp,cpp}: four worker threads that run the tasks of a bounded
-- queue. `Defs` has what a thread does between two points at which another may run, `System` the
-- interleavings, `Invariant`, `Steps` and `Safety` what holds in every reachable state, and `Measure`,
-- `Awake`, `Shutdown` and `Joined` how the destructor ends.
pub mod Defs
pub mod System
pub mod Invariant
pub mod Steps
pub mod Safety
pub mod Measure
pub mod Shutdown
pub mod Joined
pub mod Awake
mod Tests
