-- ===== src/Process.antt =====
-- Processes: src/process.
pub mod Create
pub mod Manager
pub mod Memory
pub mod Pid
pub mod Worker
pub mod Status
pub mod Task
pub mod Condvar
pub mod Life
