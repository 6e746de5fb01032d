-- ===== src/Process/Life/Exit.antt =====
-- `exit` of src/process/process.rs.
pub mod Close
pub mod Run
pub mod Reparent
use ark_rust_kernel.Prelude.{
  ℕ, zero, suc, ◌+◌, ◌-◌, List, [], ◌∷◌, ◌++◌, Option, none, some, Bool, true, false, ◌&&◌, ◌||◌,
  not, ltb, leb, ◌==◌, if◌then◌else◌, Result, ok, err, Outcome, done, panic, assert, unwrap, ◌>>=◌,
  ◌>>◌, length, set, ℤ, pos, negsuc, map,
}
use ark_rust_kernel.Prelude.Maps.{Map, insert, get, remove, contains_key}
use ark_rust_kernel.Memory.Frames.{FrameAllocator, Machine}
use ark_rust_kernel.Memory.Entry.{VendorId}
use ark_rust_kernel.Interrupt.Context
use ark_rust_kernel.Interrupt.Context.{TrapContext, reg_a0}
use ark_rust_kernel.Process.Status.{ProcessStatus, ready, running, suspend, zombie}
use ark_rust_kernel.Process.Condvar
use ark_rust_kernel.Process.Condvar.{Condvar}
use ark_rust_kernel.Process.Memory.{ProcessMemory, World}
use ark_rust_kernel.Process.Memory
use ark_rust_kernel.Process.Memory.Mmap.{copy_from}
use ark_rust_kernel.Syscall.Error.{SyscallError, echild, SyscallResult}
use ark_rust_kernel.Process.Life.{
  ProcessData, OpenFiles, Family, update, is_listed, strong_count, with_data, with_status, world_of,
}

-- The drop of a file of a process that exits: `close` is called for the last `Arc`, and what it
-- says is not looked at.
abbrev pub drop_file : (ℕ → Bool) → ℕ → OpenFiles → OpenFiles
drop_file closes f o = record {
  strong = update o.strong f (o.strong f - 1);
  closed = if not (ltb 1 (o.strong f)) && closes f then update o.closed f true else o.closed;
}

-- `while let Some(file) = files.pop()`: the last file first
unfoldable pub close_files : (ℕ → Bool) → List (Option ℕ) → OpenFiles → OpenFiles
close_files closes [] o = o
close_files closes (none ∷ rest) o = close_files closes rest o
close_files closes (some f ∷ rest) o = drop_file closes f (close_files closes rest o)

-- What `wakeup` does to a process that is still alive
abbrev wake_one : {S : Type 0} → Family S → ℕ → Family S
wake_one s h = if ltb 0 (strong_count s h) then with_status s h ready else s

unfoldable pub wake_all : {S : Type 0} → Family S → List ℕ → Family S
wake_all s [] = s
wake_all s (h ∷ rest) = wake_all (wake_one s h) rest

-- `while let Some(child) = children.pop() { init.children.push(child) }`
abbrev pub popped : List ℕ → List ℕ
popped [] = []
popped (c ∷ rest) = popped rest ++ (c ∷ [])

module _ {S : Type 0} where
  -- The process becomes a zombie with its code, and its memory is reset.
  abbrev pub buried : Family S → ℕ → ℕ → World S → Family S
  buried s h exit_code w =
      with_data (record s { machine = w.machine }) h
        (record (s.procs h) { status = zombie; exit_code = exit_code; memory = w.memory })

  -- The children go to the process `init`, in the order of the pops.
  abbrev pub reparent : Family S → ℕ → ℕ → Family S
  reparent s h init =
      let left = with_data s h (record (s.procs h) { children = [] }) in
      with_data left init (record (left.procs init) {
        children = (left.procs init).children ++ popped (s.procs h).children;
      })

  abbrev pub close_all : (ℕ → Bool) → Family S → ℕ → Family S
  close_all closes s h = record (with_data s h (record (s.procs h) { files = [] })) {
    open_files = close_files closes (s.procs h).files s.open_files;
  }

  -- `wakeup`
  abbrev pub wake_waiting : Family S → ℕ → Family S
  wake_waiting s h =
      let waiting = (s.procs h).condvar_waiting_for_exit.waiting_list in
      wake_all (with_data s h (record (s.procs h) { condvar_waiting_for_exit = Condvar.new }))
        waiting

-- The `Arc` that `exit` is called with is dropped at its end.
abbrev pub let_go : {S : Type 0} → Family S → ℕ → Family S
let_go s h = record s { held = update s.held h (s.held h - 1) }

module _ (fa : FrameAllocator) (vendor : VendorId) where
  open fa use {State}

  -- `exit` of the process `h`; the `Arc` that it is called with counts in `held`.
  unfoldable pub exit : (ℕ → Bool) → Family State → ℕ → ℕ → Outcome (Family State)
  exit closes s h exit_code = do
    assert (strong_count s h == 3)
    assert (not ((s.procs h).pid == 1))
    w ← Memory.reset fa vendor (world_of s h)
    init ← unwrap (get s.process_list 1)
    done (let_go (wake_waiting (close_all closes (reparent (buried s h exit_code w) h init) h) h) h)
