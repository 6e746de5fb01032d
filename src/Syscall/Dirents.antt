-- ===== src/Syscall/Dirents.antt =====
-- `getdents64` of src/syscall/file.rs, `DirEnt64` of src/syscall/c/mod.rs, and the pages that
-- `access_continuously` of src/memory/address.rs asks for.
pub mod Decode
pub mod Records
pub mod Listing
pub mod Pages
pub mod Mapped
pub mod Ends
use ark_rust_kernel.Prelude.{
  ℕ, zero, suc, ◌+◌, ◌-◌, ◌/◌, ◌%◌, ◌^◌, ◌==◌, Bool, true, false, ltb, leb, List, [], ◌∷◌, ◌++◌,
  Option, none, some, Outcome, done, panic, unwrap, assert, Result, ok, err, ◌>>=◌, ◌>>◌, length,
  get_elem?, if◌then◌else◌, String, bit_and, bit_or, not_usize, pos, add_usize,
}
use ark_rust_kernel.Prelude.Text.{Text}
use ark_rust_kernel.Memory.Frames.{FrameAllocator}
use ark_rust_kernel.Memory.Entry.{VendorId}
use ark_rust_kernel.Memory.PteFlag
use ark_rust_kernel.Memory.Paging
use ark_rust_kernel.Memory.Paging.{Grown}
use ark_rust_kernel.Memory.Address.{page_add, round_up_to, page_of_addr, addr_of_page, to_offset}
use ark_rust_kernel.Filesystem.Flags.{InodeStat, all_modes, mask_file_type}
use ark_rust_kernel.Filesystem.Inode.{
  OpenedFile, dir_file, inode_file, DirFile, Inodes, Vfs, dentry,
}
use ark_rust_kernel.Filesystem.Directory.{get_child}
use ark_rust_kernel.Syscall.Error.{SyscallError, eio, SyscallResult}
use ark_rust_kernel.Syscall.Stat.{stat_of}

-- The `n` bytes of a number, the lowest first
unfoldable pub le_bytes : ℕ → ℕ → List ℕ
le_bytes zero v = []
le_bytes (suc n) v = (v % 256) ∷ le_bytes n (v / 256)

-- `size_of::<DirEnt64>()`
abbrev pub header_size : ℕ
header_size = 19

-- `DT_SOCK`, `DT_LNK`, `DT_REG`, `DT_BLK`, `DT_DIR`, `DT_CHR`, `DT_FIFO` and `DT_UNKNOWN`
abbrev pub entry_type : ℕ → ℕ
entry_type bits =
    if bits == 0xC000
    then 12
    else if bits == 0xA000
    then 10
    else if bits == 0x8000
    then 8
    else if bits == 0x6000
    then 6
    else if bits == 0x4000
    then 4
    else if bits == 0x2000
    then 2
    else if bits == 0x1000
    then 1
    else 0

-- The length of a record: the header, the name and a zero byte, rounded up to 8
abbrev pub record_len : Text → ℕ
record_len name = round_up_to (header_size + length name + 1) 8

-- `while bytes.len() < len { bytes.push(0) }`, as the number of zeros
abbrev pub zeros : ℕ → List ℕ
zeros zero = []
zeros (suc n) = 0 ∷ zeros n

-- The bytes of a record, with the type of the entry
unfoldable pub encode : ℕ → ℕ → ℕ → Text → List ℕ
encode ino off d_type name =
    let bytes =
      le_bytes 8 ino
      ++ (le_bytes 8 off ++ (le_bytes 2 (record_len name) ++ ((d_type % 256) ∷ name))) in
    bytes ++ zeros (record_len name - length bytes)

-- `from_dentry`: a mode with other bits than those of `FileModes` panics.
unfoldable pub from_dentry : InodeStat → Text → ℕ → Outcome (List ℕ)
from_dentry stat name iter_off =
    let mode = stat.mode % 2 ^ 32 in
    assert (bit_and mode (not_usize all_modes) == 0)
    >> done (encode stat.ino iter_off (entry_type (mask_file_type mode)) name)

-- The bytes of a record before those of the records behind it
abbrev pub behind : {A : Type 0} → List ℕ → Option (List ℕ × ℕ) × A → Option (List ℕ × ℕ) × A
behind bytes (some (more, next), s) = (some (bytes ++ more, next), s)
behind bytes (none, s) = (none, s)

-- What `getdents64` returns after the loop
abbrev pub dents_answer :
    {A : Type 0} → DirFile → Option (List ℕ × ℕ) × A → SyscallResult × Option (List ℕ × DirFile) × A
dents_answer f (some (bytes, next), s) =
    (ok (length bytes), some (bytes, record f { iterator = next }), s)
dents_answer f (none, s) = (err eio, none, s)

-- `start_trampoline`
abbrev pub start_trampoline : ℕ
start_trampoline = 0xC000_0000

module _ (fa : FrameAllocator) (vendor : VendorId) (translate : ℕ → Option ℕ) where
  open fa use {State}

  -- The loop of `access_continuously`: `n` pages from the page `pg` on, which have to be mapped for
  -- the user, are mapped for the kernel from the page `n_kernel` of the window on.
  unfoldable pub map_pages : Grown State → ℕ → ℕ → ℕ → Outcome (Grown State)
  map_pages k zero pg n_kernel = done k
  map_pages k (suc n) pg n_kernel = do
    pg_pa ← unwrap (translate (addr_of_page pg))
    k' ←
        Paging.map fa vendor k (addr_of_page (page_add (page_of_addr start_trampoline) n_kernel))
          pg_pa (bit_or (bit_or PteFlag.r PteFlag.w) PteFlag.x)
    map_pages k' n (pg + 1) (n_kernel + 1)

  -- The number of pages, `start_page.id..=end_page.id`
  abbrev pub page_count : ℕ → ℕ → ℕ
  page_count va size = page_of_addr (to_offset va (pos size)) + 1 - page_of_addr va

  -- The kernel's page table around the access
  unfoldable pub access_continuously : Grown State → ℕ → ℕ → Outcome (Grown State)
  access_continuously k va size = do
    mapped ← map_pages k (page_count va size) (page_of_addr va) 0
    c ← Paging.unmap_many mapped.machine.cells mapped.table start_trampoline (page_count va size)
    done (record mapped { machine = record (mapped.machine) { cells = c } })

  -- The write of a record: within a physical page, or page by page
  unfoldable pub write_record : Grown State → ℕ → List ℕ → Outcome (Grown State)
  write_record k va bytes = unwrap (translate va) >>= λ pa.
      if page_of_addr (to_offset pa (pos (length bytes))) == page_of_addr pa
      then done k
      else access_continuously k va (length bytes)

  module _ {W : Type 0} (ops : Inodes W) (release : (ℕ → Bool) → ℕ → ℕ → Bool) where
    -- The bytes that a round writes, where there is a next child
    abbrev pub encode_child : Vfs W → ℕ → ℕ → Outcome (List ℕ)
    encode_child v child i =
        stat_of ops v child >>= λ stat. from_dentry stat (dentry v child).name i

    -- The file system and the kernel's page table
    abbrev pub After : Type 0
    After = Vfs W × Grown State

    -- What a loop returns: the bytes written and the next place, or `none` where reading the
    -- directory failed
    abbrev pub Dents : Type 0
    Dents = Outcome (Option (List ℕ × ℕ) × After)

    -- The loop from a child on
    abbrev pub Rest : Type 0
    Rest = After → ℕ → ℕ → ℕ → Dents

    -- A record that does not fit ends the loop.
    abbrev pub put_record : Rest → After → ℕ → ℕ → ℕ → List ℕ → Dents
    put_record rest (v, k) i cur room bytes = elim (ltb room (length bytes)) [
      | true ↦ done (some ([], i), (v, k))
      | false ↦ write_record k cur bytes >>= λ k'.
          rest (v, k') (i + 1) (to_offset cur (pos (length bytes))) (room - length bytes) >>= λ q.
          done (behind bytes q)
    ]

    abbrev pub by_child : Rest → Grown State → ℕ → ℕ → ℕ → Result String (Option ℕ) × Vfs W → Dents
    by_child rest k i cur room (err _, v) = done (none, (v, k))
    by_child rest k i cur room (ok none, v) = done (some ([], i), (v, k))
    by_child rest k i cur room (ok (some child), v) =
        encode_child v child i >>= put_record rest (v, k) i cur room

    -- The loop of `getdents64` from the child `i` on. Each record takes at least 24 bytes, so the
    -- bytes of the buffer are enough fuel.
    unfoldable pub dents_loop : ℕ → ℕ → Rest
    dents_loop zero d s i cur room = panic
    dents_loop (suc fuel) d (v, k) i cur room =
        get_child ops release v d i >>= by_child (dents_loop fuel d) k i cur room

    -- `getdents64` of a directory that is open: `iterator` is where it goes on. The result is the
    -- number of bytes, with the bytes and the new place.
    unfoldable pub getdents64 :
        After → DirFile → ℕ → ℕ → Outcome (SyscallResult × Option (List ℕ × DirFile) × After)
    getdents64 s f buf len =
        dents_loop (suc len) f.dir_entry s f.iterator buf len >>= λ r. done (dents_answer f r)
