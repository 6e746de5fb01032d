-- ===== src/Filesystem.antt =====
-- src/filesystem/mod.rs: open flags and modes.
pub mod Flags
pub mod Inode
pub mod Dentry
pub mod Directory
pub mod Mount
pub mod DirFile
pub mod Fatfs
pub mod Samples
mod Tests
