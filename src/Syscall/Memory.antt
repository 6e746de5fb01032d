-- ===== src/Syscall/Memory.antt =====
-- The system calls of src/syscall/memory.rs. What a file does on `seek` and on `read` of a page is a
-- parameter: whether the one succeeds, and the machine after the other, if it does.
pub mod Unmap
use ark_rust_kernel.Prelude.{
  ℕ, zero, suc, ◌+◌, ◌-◌, ◌/◌, ◌%◌, ◌^◌, Option, none, some, Bool, true, false, ◌&&◌, not, ltb,
  ◌==◌, if◌then◌else◌, bit_and, bit_or, String, Result, ok, err, Outcome, done, panic, assert,
  unwrap, unwrap_ok, ◌>>=◌, ◌>>◌, add_usize, not_usize,
}
use ark_rust_kernel.Memory.Address.{
  VirtAddr, VirtPageId, page_size, page_of_addr, addr_of_page, round_up,
}
use ark_rust_kernel.Memory.Frames.{FrameAllocator, Machine}
use ark_rust_kernel.Memory.PteFlag
use ark_rust_kernel.Memory.Entry.{VendorId, contains_flag}
use ark_rust_kernel.Memory.Paging.{translate}
use ark_rust_kernel.Process.Memory
use ark_rust_kernel.Process.Memory.{World}
use ark_rust_kernel.Process.Memory.Mmap
use ark_rust_kernel.Syscall.Error.{SyscallError, eio, enomem, SyscallResult}

abbrev pub prot_read : ℕ
prot_read = 1

abbrev pub prot_write : ℕ
prot_write = 2

abbrev pub prot_exec : ℕ
prot_exec = 4

abbrev pub map_fixed : ℕ
map_fixed = 0x10

abbrev pub map_anonymous : ℕ
map_anonymous = 0x20

-- `from_bits(…).unwrap()` of `ProtFlags` and of `MapFlags`: other bits than the named ones panic.
abbrev pub prot_known : ℕ → Bool
prot_known prot = bit_and prot (not_usize 0x7) == 0

abbrev pub flags_known : ℕ → Bool
flags_known flags = bit_and flags (not_usize 0x33) == 0

-- `pte_flags`
abbrev pub pte_flags_of : ℕ → ℕ
pte_flags_of prot =
    let f = if contains_flag prot prot_read then bit_or PteFlag.u PteFlag.r else PteFlag.u in
    let f' = if contains_flag prot prot_write then bit_or f PteFlag.w else f in
    if contains_flag prot prot_exec then bit_or f' PteFlag.x else f'

module _ (fa : FrameAllocator) (vendor : VendorId) where
  open fa use {State}

  unfoldable pub brk : World State → ℕ → Outcome (SyscallResult × World State)
  brk w addr = do (b, w') ← Memory.set_brk fa vendor w addr; done (ok b, w')

  -- The loop of `munmap`, with `n` pages left: a page that is not mapped panics.
  unfoldable pub unmap_range : World State → VirtPageId → ℕ → Outcome (World State)
  unmap_range w vpn zero = done w
  unmap_range w vpn (suc n) = do
    (r, w') ← Memory.unmap fa w vpn
    _ ← unwrap_ok r
    unmap_range w' (vpn + 1) n

  unfoldable pub munmap : World State → VirtAddr → ℕ → Outcome (SyscallResult × World State)
  munmap w addr len = do
    w' ← unmap_range w (page_of_addr addr) (add_usize len (addr % page_size) / page_size)
    done (ok 0, w')

  module _ (seeks : ℕ → ℕ → Bool) (read_page : ℕ → ℕ → Machine State → Option (Machine State)) where
    -- The loop that reads `file` into the pages from `vpn`.
    unfoldable pub read_range : World State → ℕ → VirtPageId → ℕ → Outcome (World State)
    read_range w file vpn zero = done w
    read_range w file vpn (suc n) = do
      pa ← unwrap (translate w.machine.cells w.memory.page_table (addr_of_page vpn))
      m ← unwrap (read_page file pa w.machine)
      read_range (record w { machine = m }) file (vpn + 1) n

    -- `mmap` once it has an address: the pages are filled from the file `fd`, if it is open.
    unfoldable pub fill :
        World State → Option ℕ → VirtAddr → ℕ → ℕ → ℕ → Outcome (SyscallResult × World State)
    fill w (some file) start pages flags offset = do
      assert (seeks file offset)
      w' ← read_range w file (page_of_addr start) pages
      done (ok start, w')
    fill w none start pages flags offset = do
      w' ← unmap_range w (page_of_addr start) pages
      done (err eio, w')

    -- The end of `mmap`. A file that is not aligned is a `todo!`.
    unfoldable pub finish :
        World State
        → Option ℕ
        → Option VirtAddr
        → VirtAddr
        → ℕ
        → ℕ
        → ℕ
        → Outcome (SyscallResult × World State)
    finish w fd_file none addr pages flags offset = done (err enomem, w)
    finish w fd_file (some start) addr pages flags offset =
        let filled = fill w fd_file start pages flags offset in
        assert ((addr % page_size == 0) && (offset == 0))
        >> (if contains_flag flags map_anonymous then done (ok start, w) else filled)

    -- The pages for `mmap`: at a fixed address a failure panics.
    unfoldable pub place :
        World State → VirtAddr → ℕ → ℕ → ℕ → Outcome (Option VirtAddr × World State)
    place w addr pages pte_flags flags =
        let fixed = do
          (r, w') ← Mmap.mmap fa vendor w (some addr) pages pte_flags
          a ← unwrap_ok r
          done (some a, w')
        in let anywhere = do
          (r, w') ← Mmap.mmap fa vendor w none pages pte_flags
          done (elim r [ ok a ↦ some a | err _ ↦ none ], w')
          in if contains_flag flags map_fixed then fixed else anywhere

    -- `fd_file` is what the table of the process has at `fd`.
    unfoldable pub mmap :
        World State → VirtAddr → ℕ → ℕ → ℕ → Option ℕ → ℕ → Outcome (SyscallResult × World State)
    mmap w addr len prot flags fd_file offset =
        let pages = add_usize (round_up len) (addr % page_size) / page_size in
        let mapped = do
          assert (prot_known prot)
          assert (flags_known flags)
          (start, w') ← place w addr pages (pte_flags_of prot) flags
          finish w' fd_file start addr pages flags offset
        in if round_up len == 0 then done (ok (2 ^ 64 - 1), w) else mapped
