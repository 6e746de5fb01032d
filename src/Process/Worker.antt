-- ===== src/Process/Worker.antt =====
-- The loop `worker` of src/process/mod.rs and `do_yield` of src/process/task.rs, up to the switch
-- of the registers: what they do to the statuses and to the current process of the CPU.
pub mod Turn
use ark_rust_kernel.Prelude.{ℕ, Option, none, some, Outcome, done, panic, unwrap, ◌>>=◌}
use ark_rust_kernel.Process.Status.{ready, running, StatusTable, set_status}
use ark_rust_kernel.Process.Task.{yield_process}
use ark_rust_kernel.Process.Manager.{Process, ProcessManager, scheduler}

pub record WorkerState : Type 0 where
  pub manager : ProcessManager
  pub statuses : StatusTable
  pub current_proc : Option Process

-- What happens to the process that the CPU was at.
abbrev pub preempt : Option Process → StatusTable → StatusTable
preempt none t = t
preempt (some p) t = set_status p.handle ready t

-- A round of the loop of `worker`: without a process that is ready it waits for an interrupt.
unfoldable pub worker_turn : WorkerState → WorkerState
worker_turn s =
    let (proc, m) = scheduler s.manager s.statuses in
    elim proc [
      | some c ↦ record {
        manager = m;
        statuses = set_status c.handle running (preempt s.current_proc s.statuses);
        current_proc = some c;
      }
      | none ↦ record s { manager = m }
    ]

-- `do_yield`, until the CPU is back in `worker`
unfoldable pub do_yield : WorkerState → Outcome WorkerState
do_yield s = do
  p ← unwrap s.current_proc
  done (record s { statuses = yield_process p.handle s.statuses; current_proc = none })
