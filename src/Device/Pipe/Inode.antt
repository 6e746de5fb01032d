-- ===== src/Device/Pipe/Inode.antt =====
-- `PipeDummyInode` and `get_dentry` of src/device/pipe.rs: the entry that stands for an end of a
-- pipe, whose inode refuses every operation. What the trait hands in is not looked at.
use ark_rust_kernel.Prelude.{ℕ, Option, none, String, Result, err, bit_or}
use ark_rust_kernel.Filesystem.Flags.{InodeStat}
use ark_rust_kernel.Device.Pipe.Defs.{pipe_size}
use ark_rust_kernel.Device.Pipe.File.{PipeFileType, reader, writer}

pub record PipeDummyInode : Type 0 where
  pub mode : ℕ

-- `link`, `unlink`, `mkdir`, `rmdir`, `read_dir` and `open`
abbrev pub refuse : {A : Type 0} → PipeDummyInode → Result String A
refuse i = err "Cannot operate to pipe dummy inode."

abbrev pub lookup : {A : Type 0} → PipeDummyInode → String → Option A
lookup i name = none

abbrev pub get_stat : PipeDummyInode → InodeStat
get_stat i = record { ino = 0; mode = i.mode; nlink = 1; size = pipe_size; block_size = 1 }

-- The name and the inode of `get_dentry`: `FIFO | Read` or `FIFO | Write`
abbrev pub get_dentry : PipeFileType → String × PipeDummyInode
get_dentry reader = ("pipe-read", record { mode = bit_or 0x1000 0x124 })
get_dentry writer = ("pipe-write", record { mode = bit_or 0x1000 0x92 })
