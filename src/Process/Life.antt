-- ===== src/Process/Life.antt =====
-- The life of a process in src/process/process.rs, which `fork`, `exit` and `wait_for` share. A
-- process is a handle that is never reused. An `Arc<Process>` of the process table is an entry of
-- `process_list`, and `held` counts all others. `pids` is `PID_ALLOCATOR`.
pub mod Fork
pub mod Exit
pub mod Wait
mod Tests
use ark_rust_kernel.Prelude.{
  ℕ, zero, suc, ◌+◌, ◌-◌, List, [], ◌∷◌, ◌++◌, Option, none, some, Bool, true, false, ◌&&◌, ◌||◌,
  not, ltb, leb, ◌==◌, if◌then◌else◌, Result, ok, err, Outcome, done, panic, assert, unwrap, ◌>>=◌,
  ◌>>◌, length, set, ℤ, pos, negsuc, map,
}
use ark_rust_kernel.Prelude.Maps.{Map, insert, get, remove, contains_key}
use ark_rust_kernel.Memory.Frames.{FrameAllocator, Machine}
use ark_rust_kernel.Memory.Entry.{VendorId}
use ark_rust_kernel.Interrupt.Context
use ark_rust_kernel.Interrupt.Context.{TrapContext, reg_a0}
use ark_rust_kernel.Process.Status.{ProcessStatus, ready, running, suspend, zombie}
use ark_rust_kernel.Process.Condvar
use ark_rust_kernel.Process.Pid.{RecycleAllocator}
use ark_rust_kernel.Process.Condvar.{Condvar}
use ark_rust_kernel.Process.Memory.{ProcessMemory, World}
use ark_rust_kernel.Process.Memory
use ark_rust_kernel.Process.Memory.Mmap.{copy_from}
use ark_rust_kernel.Syscall.Error.{SyscallError, echild, SyscallResult}

pub record ProcessData : Type 0 where
  pub pid : ℕ
  pub status : ProcessStatus
  pub exit_code : ℕ
  pub parent : Option ℕ
  pub children : List ℕ
  pub kernel_stack : List ℕ
  pub trap_context : TrapContext
  pub memory : ProcessMemory
  pub cwd : ℕ
  pub files : List (Option ℕ)
  pub condvar_waiting_for_exit : Condvar

-- The open files: the strong counts of their `Arc`s, and which were closed.
pub record OpenFiles : Type 0 where
  pub strong : ℕ → ℕ
  pub closed : ℕ → Bool

pub record Family (S : Type 0) : Type 0 where
  pub machine : Machine S
  pub procs : ℕ → ProcessData
  pub process_list : Map ℕ
  pub held : ℕ → ℕ
  pub pids : RecycleAllocator
  pub open_files : OpenFiles

abbrev pub update {ℓ} : {A : Type ℓ} → (ℕ → A) → ℕ → A → ℕ → A
update f k a j = if k == j then a else f j

module _ {S : Type 0} where
  abbrev pub is_listed : Family S → ℕ → Bool
  is_listed s h = elim (get s.process_list (s.procs h).pid) [ some k ↦ k == h | none ↦ false ]

  -- `Arc::strong_count`, without those of local variables
  abbrev pub strong_count : Family S → ℕ → ℕ
  strong_count s h = s.held h + (if is_listed s h then 1 else 0)

  abbrev pub with_data : Family S → ℕ → ProcessData → Family S
  with_data s h d = record s { procs = update s.procs h d }

  abbrev pub with_status : Family S → ℕ → ProcessStatus → Family S
  with_status s h status = with_data s h (record (s.procs h) { status = status })

  -- The world of one process
  abbrev pub world_of : Family S → ℕ → World S
  world_of s h = record { machine = s.machine; memory = (s.procs h).memory }

  -- `getppid`
  unfoldable pub getppid : Family S → ℕ → SyscallResult
  getppid s h = elim (s.procs h).parent [
    | some p ↦ if ltb 0 (strong_count s p) then ok (s.procs p).pid else ok 0
    | none ↦ ok 0
  ]
