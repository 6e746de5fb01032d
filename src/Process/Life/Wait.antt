-- ===== src/Process/Life/Wait.antt =====
-- `wait_for` of src/process/process.rs, one round of its loop at a time: other processes act
-- between the rounds.
pub mod Find
pub mod Reap
use ark_rust_kernel.Prelude.{
  ℕ, zero, suc, ◌+◌, ◌-◌, List, [], ◌∷◌, ◌++◌, Option, none, some, Bool, true, false, ◌&&◌, ◌||◌,
  not, ltb, leb, ◌==◌, if◌then◌else◌, Result, ok, err, Outcome, done, panic, assert, unwrap, ◌>>=◌,
  ◌>>◌, length, set, ℤ, pos, negsuc, map,
}
use ark_rust_kernel.Prelude.Maps.{Map, insert, get, remove, contains_key}
use ark_rust_kernel.Memory.Frames.{FrameAllocator, Machine}
use ark_rust_kernel.Memory.Entry.{VendorId}
use ark_rust_kernel.Interrupt.Context
use ark_rust_kernel.Interrupt.Context.{TrapContext, reg_a0}
use ark_rust_kernel.Process.Status.{ProcessStatus, ready, running, suspend, zombie}
use ark_rust_kernel.Process.Condvar
use ark_rust_kernel.Process.Condvar.{Condvar}
use ark_rust_kernel.Process.Memory.{ProcessMemory, World, drop_tables, drop_user_pages}
use ark_rust_kernel.Process.Pid
use ark_rust_kernel.Process.Memory
use ark_rust_kernel.Process.Memory.Mmap.{copy_from}
use ark_rust_kernel.Syscall.Error.{SyscallError, echild, SyscallResult}
use ark_rust_kernel.Process.Life.{
  ProcessData, OpenFiles, Family, update, is_listed, strong_count, with_data, with_status, world_of,
}

abbrev pub is_zombie : ProcessStatus → Bool
is_zombie zombie = true
is_zombie _ = false

-- `pid == -1 || pid == child.pid.pid() as isize`, for the pids that an allocator hands out
abbrev pub waits_for : ℤ → ℕ → Bool
waits_for (pos n) child = n == child
waits_for (negsuc zero) child = true
waits_for (negsuc (suc n)) child = false

-- How a round of the loop of `wait_for` ends, with the exit code that was written, if any
pub data Waited : Type 0 where
  returned : SyscallResult → Option ℕ → Waited
  yielded stuck : Waited

module _ {S : Type 0} where
  unfoldable pub retain_live : Family S → List ℕ → List ℕ
  retain_live s [] = []
  retain_live s (c ∷ rest) =
      let others = retain_live s rest in if ltb 0 (strong_count s c) then c ∷ others else others

  -- The first zombie that is waited for
  unfoldable pub find_zombie : Family S → ℤ → List ℕ → Option ℕ
  find_zombie s pid [] = none
  find_zombie s pid (c ∷ rest) =
      if is_zombie (s.procs c).status && waits_for pid (s.procs c).pid
      then some c
      else find_zombie s pid rest

  -- The wait on the process of a pid: the caller goes to sleep, and yields. For its own pid it holds
  -- the lock of its data already, and spins on it.
  unfoldable pub sleep_on : Family S → ℕ → ℕ → Waited × Family S
  sleep_on s caller pid = elim (get s.process_list pid) [
    | some c ↦
        let waiting = (s.procs c).condvar_waiting_for_exit.waiting_list in
        let asleep = with_status s caller suspend in
        if c == caller then (stuck, s) else (
          yielded,
          with_data asleep c (record (asleep.procs c) {
            condvar_waiting_for_exit = record { waiting_list = caller ∷ waiting };
          }),
        )
    | none ↦ (returned (err echild) none, s)
  ]

  -- Without a zombie: `WNOHANG` is 1. What is left is the wait, up to `do_yield`.
  abbrev pub no_zombie : Family S → ℕ → ℤ → ℕ → Waited × Family S
  no_zombie s caller pid option = if option == 1 then (returned (ok 0) none, s) else (elim pid [
    | pos zero ↦ (yielded, s)
    | pos (suc n) ↦ sleep_on s caller (suc n)
    | negsuc _ ↦ (yielded, s)
  ])

  -- `children.retain`
  abbrev pub keep_live : Family S → ℕ → Family S
  keep_live s caller =
      with_data s caller
        (record (s.procs caller) { children = retain_live s (s.procs caller).children })

module _ (fa : FrameAllocator) where
  open fa use {State}

  -- The drop of the last `Arc` of a process: its pid is free again, and the pages of its kernel
  -- stack, its page table and its memory go back. A process that exited has no open files left.
  unfoldable pub drop_process : Family State → ℕ → Outcome (Family State)
  drop_process s c =
      let d = s.procs c in
      let unstacked = drop_tables fa s.machine d.kernel_stack in
      let unmapped =
        drop_user_pages fa (drop_tables fa unstacked d.memory.page_table.pages) d.memory.maps in
      Pid.free s.pids d.pid >>= λ pids. done (record s { pids = pids; machine = unmapped })

  -- The zombie leaves the table, and the local `Arc` has to be the last; then it is dropped.
  unfoldable pub reap : Family State → ℕ → Outcome (Waited × Family State)
  reap s c =
      let pid = (s.procs c).pid in
      let left = record s { process_list = remove s.process_list pid } in
      assert (strong_count left c == 0) >> drop_process left c >>= λ dropped.
      done (returned (ok pid) (some (s.procs c).exit_code), dropped)

  abbrev pub by_zombie : Family State → ℕ → ℤ → ℕ → Option ℕ → Outcome (Waited × Family State)
  by_zombie s caller pid option (some child) = reap s child
  by_zombie s caller pid option none = done (no_zombie s caller pid option)

  abbrev pub by_children : Family State → ℕ → ℤ → ℕ → List ℕ → Outcome (Waited × Family State)
  by_children s caller pid option [] = done (returned (err echild) none, s)
  by_children s caller pid option (c ∷ rest) =
      by_zombie s caller pid option (find_zombie s pid (c ∷ rest))

  -- One round of the loop of `wait_for`
  unfoldable pub wait_turn : Family State → ℕ → ℤ → ℕ → Outcome (Waited × Family State)
  wait_turn s caller pid option =
      by_children (keep_live s caller) caller pid option (retain_live s (s.procs caller).children)
