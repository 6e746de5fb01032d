-- ===== src/Syscall.antt =====
-- src/syscall: the system calls on file descriptors.
pub mod Error
pub mod File
pub mod Path
pub mod Stat
pub mod Dirents
pub mod Memory
mod Tests
