-- ===== src/Process/Manager.antt =====
-- The process table and the scheduler of src/process/process.rs. A `BTreeMap` is a list in the
-- order of its keys. An `Arc<Process>` is the pid, which never changes, and the handle by which
-- the status is found.
pub mod Scheduler
pub mod Fair
mod Tests
use ark_rust_kernel.Prelude.{
  ℕ, List, [], ◌∷◌, Option, none, some, Bool, true, false, ◌&&◌, ltb, leb, ◌==◌, if◌then◌else◌,
}
use ark_rust_kernel.Prelude.Maps.{Map, insert}
use ark_rust_kernel.Process.Status.{ProcessStatus, ready, running, suspend, zombie, StatusTable}

pub record Process : Type 0 where
  pub pid : ℕ
  pub handle : ℕ

pub record ProcessManager : Type 0 where
  pub process_list : Map Process
  pub previous_scheduled_pid : ℕ

abbrev pub new : ProcessManager
new = record { process_list = []; previous_scheduled_pid = 0 }

-- `spawn` of a process that `Process::new` made
unfoldable pub spawn : ProcessManager → Process → ProcessManager
spawn m p = record m { process_list = insert m.process_list p.pid p }

abbrev pub is_ready : Option ProcessStatus → Bool
is_ready (some ready) = true
is_ready _ = false

-- `filter` and `find_map`: the first process whose pid passes and that is ready
unfoldable pub find_ready : (ℕ → Bool) → StatusTable → List (ℕ × Process) → Option Process
find_ready keep t [] = none
find_ready keep t ((pid, proc) ∷ rest) =
    if keep pid && is_ready (t proc.handle) then some proc else find_ready keep t rest

-- The choice of the scheduler: behind the last choice first, then from the start.
unfoldable pub choose : ProcessManager → StatusTable → Option Process
choose m t = elim (find_ready (λ pid. ltb m.previous_scheduled_pid pid) t m.process_list) [
  | some proc ↦ some proc
  | none ↦ find_ready (λ pid. leb pid m.previous_scheduled_pid) t m.process_list
]

unfoldable pub scheduler : ProcessManager → StatusTable → Option Process × ProcessManager
unfolding choose
scheduler m t = elim (choose m t) [
  | some proc ↦ (some proc, record m { previous_scheduled_pid = proc.pid })
  | none ↦ (none, m)
]
