-- ===== src/Device/Pipe.antt =====
-- The anonymous pipe of src/device/pipe.rs.
pub mod Defs
pub mod File
pub mod Inode
pub mod Ring
pub mod Fifo
pub mod Overrun
pub mod Wakeup
mod Tests
