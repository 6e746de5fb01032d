-- ===== src/Process/Manager/Tests.antt =====
-- Runs of the scheduler of src/process/process.rs, and its theorems at a concrete table.
use ark_rust_kernel.Prelude.{
  ℕ, ◌<◌, ◌≡◌, refl, arith, [], ◌∷◌, none, some, true, replicate, ◌==◌, if◌then◌else◌,
}
use ark_rust_kernel.Prelude.Maps.{get}
use ark_rust_kernel.Process.Status.{ready, suspend, zombie, StatusTable}
use ark_rust_kernel.Process.Manager.{Process, ProcessManager, find_ready, choose, scheduler}
use ark_rust_kernel.Process.Manager.Scheduler.{IsValid}
use ark_rust_kernel.Process.Manager.Fair.{served, no_starvation}

abbrev init : Process
init = record { pid = 1; handle = 10 }

abbrev shell : Process
shell = record { pid = 3; handle = 12 }

abbrev table : ProcessManager
table = record { process_list = (1, init) ∷ (3, shell) ∷ []; previous_scheduled_pid = 3 }

table-IsValid : IsValid table
table-IsValid = record { sorted = refl }

abbrev statuses : StatusTable
statuses h = if h == 10 then some ready else if h == 12 then some ready else none

abbrev asleep : StatusTable
asleep h = if h == 10 then some suspend else if h == 12 then some zombie else none

below_four : (k : ℕ) (p : Process) → get table.process_list k ≡ some p → k < 4
below_four k p e = ground arith

-- Behind pid 3 there is none, so the search goes round.
scheduler-table : (scheduler table statuses).0 ≡ some init
unfolding scheduler choose find_ready
scheduler-table = refl

asleep_idle : (scheduler table asleep).0 ≡ none
unfolding scheduler choose find_ready
asleep_idle = refl

no_starvation_example : served table 3 (replicate 4 statuses) ≡ true
no_starvation_example =
    no_starvation table 4 3 shell (replicate 4 statuses) table-IsValid refl below_four (omega arith)
      refl (omega arith)
