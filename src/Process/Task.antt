-- ===== src/Process/Task.antt =====
-- `yield_process` of src/process/task.rs: a process that gives up the CPU.
use ark_rust_kernel.Prelude.{ℕ, none, some, ◌==◌, if◌then◌else◌}
use ark_rust_kernel.Process.Status.{ProcessStatus, ready, running, suspend, zombie, StatusTable}

-- Only a running process becomes ready: one that waits or has exited keeps its status.
abbrev pub yielded : ProcessStatus → ProcessStatus
yielded running = ready
yielded ready = ready
yielded suspend = suspend
yielded zombie = zombie

abbrev pub yield_process : ℕ → StatusTable → StatusTable
yield_process p t q = if p == q then elim (t q) [ none ↦ none | some s ↦ some (yielded s) ] else t q
