-- ===== src/Process/Life/Fork.antt =====
-- `fork` of src/process/process.rs.
pub mod Files
use ark_rust_kernel.Prelude.{
  ℕ, zero, suc, ◌+◌, ◌-◌, List, [], ◌∷◌, ◌++◌, Option, none, some, Bool, true, false, ◌&&◌, ◌||◌,
  not, ltb, leb, ◌==◌, if◌then◌else◌, Result, ok, err, Outcome, done, panic, assert, unwrap, ◌>>=◌,
  ◌>>◌, length, set, ℤ, pos, negsuc, map,
}
use ark_rust_kernel.Prelude.Maps.{Map, insert, get, remove, contains_key}
use ark_rust_kernel.Memory.Frames.{FrameAllocator, Machine}
use ark_rust_kernel.Memory.Entry.{VendorId}
use ark_rust_kernel.Interrupt.Context
use ark_rust_kernel.Interrupt.Context.{TrapContext, reg_a0}
use ark_rust_kernel.Process.Status.{ProcessStatus, ready, running, suspend, zombie}
use ark_rust_kernel.Process.Condvar
use ark_rust_kernel.Process.Condvar.{Condvar}
use ark_rust_kernel.Process.Memory.{ProcessMemory, World}
use ark_rust_kernel.Process.Memory
use ark_rust_kernel.Process.Memory.Mmap.{copy_from}
use ark_rust_kernel.Syscall.Error.{SyscallError, echild, SyscallResult}
use ark_rust_kernel.Process.Life.{
  ProcessData, OpenFiles, Family, update, is_listed, strong_count, with_data, with_status, world_of,
}

-- `while files.get(fd).is_none() { files.push(None) }`, on fuel
unfoldable pub pad_loop : ℕ → List (Option ℕ) → ℕ → List (Option ℕ)
pad_loop zero files fd = files
pad_loop (suc fuel) files fd =
    let longer = pad_loop fuel (files ++ (none ∷ [])) fd in
    if ltb fd (length files) then files else longer

-- A file that `fork` copies, and the strong counts
abbrev pub share : OpenFiles → ℕ → OpenFiles
share o f = record o { strong = update o.strong f (o.strong f + 1) }

-- The loop over the parent's files, from the descriptor `fd` on.
unfoldable pub copy_files :
    ℕ → List (Option ℕ) → List (Option ℕ) × OpenFiles → List (Option ℕ) × OpenFiles
copy_files fd [] c = c
copy_files fd (none ∷ rest) c = copy_files (suc fd) rest c
copy_files fd (some f ∷ rest) (files, o) =
    copy_files (suc fd) rest
      (if leb 3 fd then (set (pad_loop (suc fd) files fd) fd (some f), share o f) else (files, o))

-- The data of the child, whose memory is copied, and of the parent
abbrev pub child_of : {S : Type 0} → Family S → ℕ → ProcessData → World S → ProcessData
child_of s parent made w =
    let p = s.procs parent in
    let context = Context.copy_from made.trap_context p.trap_context in
    record made {
      parent = some parent;
      memory = w.memory;
      status = ready;
      cwd = p.cwd;
      trap_context = record context { reg = set context.reg reg_a0 0 };
      files = (copy_files 0 p.files (made.files, s.open_files)).0;
    }

abbrev pub parent_of : {S : Type 0} → Family S → ℕ → ℕ → ProcessData
parent_of s parent child =
    let p = s.procs parent in record p { children = p.children ++ (child ∷ []) }

-- The rest of `fork`, with the memory of the child
abbrev pub forked : {S : Type 0} → Family S → ℕ → ℕ → ProcessData → World S → ℕ × Family S
forked s parent child made w = (
  made.pid,
  record s {
    machine = w.machine;
    procs =
        update (update s.procs parent (parent_of s parent child)) child (child_of s parent made w);
    process_list = insert s.process_list made.pid child;
    open_files = (copy_files 0 (s.procs parent).files (made.files, s.open_files)).1;
  },
)

module _ (fa : FrameAllocator) (vendor : VendorId) where
  open fa use {State}

  -- `fork` of the process `parent`, with the process `child` that `Process::new` made for it, which
  -- `spawn` puts into the table.
  unfoldable pub fork : Family State → ℕ → ℕ → ProcessData → Outcome (ℕ × Family State)
  fork s parent child made =
      let p = s.procs parent in
      copy_from fa vendor (record { machine = s.machine; memory = made.memory }) p.memory true
      >>= λ w. done (forked s parent child made w)
