-- ===== src/Lib.antt =====
-- ARK Rust Kernel: a verification library for the kernel's core.
--
-- The kernel is a small RISC-V (Sv39) kernel. Its parts, and how they meet:
--   * memory manages physical frames and three-level page tables; every process
--     has a page table, which its memory manager fills by `map`;
--   * process holds the process table, the scheduler, pids and condition
--     variables; a condition variable suspends and readies processes by a write
--     of their status, and the scheduler runs what is ready;
--   * device holds the pipe, a ring buffer that two files share; its files
--     suspend the caller on a condition variable and yield;
--   * core and cpu hold the locks and the depth of disabled interrupts, which
--     the lock guards push and pop;
--   * interrupt holds the table of handlers and the registers of the PLIC;
--   * syscall works on the descriptors, the memory and the processes.
--
-- The files, and the code that they are about:
--   * Prelude: options, results, panics, lists, machine words and bit masks.
--   * Memory/Address: src/memory/address.rs, addresses and page ids as the
--     `usize` that they wrap; `round_up_to`, `to_offset`, `get_pte_indexes`.
--   * Memory/Frames: src/memory/page_allocator.rs. The buddy allocator is a
--     library; the record FrameAllocator says what the kernel asks of it, and
--     `bump` is an allocator that meets it.
--   * Memory/Entry: `PTEFlags` and `PageTableEntry` of src/memory/paging.rs, and
--     the vendor of src/cpu/vendor.rs.
--   * Memory/Paging: `PageTable` of src/memory/paging.rs, with `new`, `find_pte`,
--     `find_pte_create`, `set_pte`, `map`, `unmap`, `map_big`, `map_many`,
--     `unmap_many`, `to_satp` and `translate`. Physical memory is a function from
--     a page and an index to a cell of 64 bits. IsTree is the invariant: every
--     valid entry of an inner table leads to the table of that place, so no page
--     serves twice, and the tables are frames that are in use.
--   * Process/Status, Process/Task, Process/Condvar: src/process/condvar.rs, the
--     statuses of src/process/process.rs and `yield_process` of
--     src/process/task.rs. A process is a handle that is never reused; a table of
--     statuses stands for the processes that are alive.
--   * Process/Pid: src/process/pid.rs, the allocator of process ids.
--   * Process/Manager: the process table, `spawn` and `scheduler` of
--     src/process/process.rs; a `BTreeMap` is a list in the order of its keys.
--   * Process/Create: `Process::new` of src/process/process.rs.
--   * Process/Memory: src/process/process_memory.rs, every operation. IsCoherent
--     says that the page table translates what the map of pages says.
--   * Process/Worker: the loop `worker` of src/process/mod.rs and `do_yield` of
--     src/process/task.rs, up to the switch of the registers.
--   * Device/Pipe: src/device/pipe.rs. One turn of the loop in `PipeFile::read` or
--     `write` is one function; other processes act between turns.
--   * Core/Spinlock, Core/Intrlock: src/core/spinlock.rs, src/core/intrlock.rs and
--     src/core/interrupt_safe_cell.rs, as atomic steps of CPUs in any order.
--   * Cpu/Trap: `push_interrupt` and `pop_interrupt` of src/cpu/mod.rs.
--   * Interrupt/Table, Interrupt/Plic: src/interrupt/mod.rs and
--     src/interrupt/plic.rs; the registers are bytes by their address.
--   * Process/Life: `fork`, `exit` and `wait_for` of src/process/process.rs, over
--     the processes by their handles, the references that are held to them, and
--     the open files with their strong counts. One round of the loop of `wait_for`
--     is one function; other processes act between rounds.
--   * Interrupt/Context: `TrapContext` of src/interrupt/trap.rs.
--   * Filesystem/Flags: the open flags, modes and stat record of
--     src/filesystem/mod.rs.
--   * Filesystem/Inode, Filesystem/Dentry: `DirEntry` of src/filesystem/mod.rs,
--     what it asks of an inode, and paths: `get_parent`, `from_path`, `fullpath`. An
--     entry is its place in a list of all entries, and a text is its bytes. Reaches
--     says by which names the root leads to an entry.
--   * Filesystem/Directory: `mkdir`, `link`, `open` and `get_child`.
--   * Filesystem/Mount: `init`, `register_filesystem` and `mount`.
--   * Filesystem/DirFile: the position in a directory.
--   * Filesystem/Fatfs: src/filesystem/fatfs.rs over its library, the record
--     FatLibrary. IsReader says what a read of the library is relied on for, and
--     IsNaming what the entries rely on of an inode, which FAT inodes meet.
--   * Syscall/Error, Syscall/File: errors, and the calls on descriptors of
--     src/syscall/file.rs, over `allocate_fd` of src/process/process.rs. A file is
--     a number with its strong count; what its own `close` says is a parameter.
--   * Syscall/Path: `open`, `mkdirat`, `linkat` and `mount` of src/syscall/file.rs,
--     `chdir` and `getcwd` of src/syscall/utils.rs, over the entries, the open
--     files, and the descriptors and the current directory of the process.
--   * Syscall/Stat: `fstat` and `newfstatat` of src/syscall/file.rs.
--   * Syscall/Dirents: `getdents64` of src/syscall/file.rs, with `DirEnt64` of
--     src/syscall/c/mod.rs; Decode is a reader of its records, made for the
--     theorems. What is written is a value, and not a change of memory; the kernel's
--     page table around a write that crosses pages is modelled.
--   * Syscall/Memory: `brk`, `mmap` and `munmap` of src/syscall/memory.rs.
--
-- Bounds and fuel: loops are structural recursion over the list or the number
-- that the source loops over. Fuel have only the loop of `set_brk`, for the
-- number of pages up to the new break; the loop of `fullpath`, for the number of
-- entries, since a parent was made before its children; the pushes of `fork`, for
-- the descriptor that they lead to; the loop of `read` of a FAT file, for the bytes
-- of the buffer; and the loop of `getdents64`, for the bytes of the buffer. It is enough for all rounds they can take. Words are 64 bits
-- wide; where a counter could wrap, the theorem bounds it.
--
-- Panics (`unwrap`, `assert!`, an index out of range) are the outcome `panic`.
-- Physical frames and tables are never compared by contents, only by page.
--
-- Not modelled: the boot path, the drivers (virtio, console) and trap entry and
-- exit, which are input and output, assembly, or calls of libraries; and read
-- and write of descriptors, the dispatch of system calls and the loading of programs.
pub mod Core
pub mod Cpu
pub mod Filesystem
pub mod Interrupt
pub mod Syscall
pub mod Prelude
pub mod Memory
pub mod Process
pub mod Device
