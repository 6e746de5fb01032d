-- ===== src/Memory.antt =====
-- Memory: src/memory.
pub mod Address
pub mod Frames
pub mod PteFlag
pub mod Entry
pub mod Paging
