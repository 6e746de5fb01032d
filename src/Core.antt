-- ===== src/Core.antt =====
-- src/core: the locks, and the runs of several CPUs that use them.
pub mod Spinlock
pub mod Intrlock
mod Tests
