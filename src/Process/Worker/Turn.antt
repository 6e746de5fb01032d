-- ===== src/Process/Worker/Turn.antt =====
-- A process gets the CPU and gives it back: src/process/mod.rs and src/process/task.rs.
use ark_rust_kernel.Prelude.{
  ℕ, ◌≡◌, refl, arith, Option, none, some, true, ◌==◌, if◌then◌else◌, done,
}
use ark_rust_kernel.Process.Status.{ProcessStatus, ready, running, suspend, zombie}
use ark_rust_kernel.Process.Task.{yield_process}
use ark_rust_kernel.Process.Manager.{Process, is_ready, scheduler}
use ark_rust_kernel.Process.Manager.Scheduler.{IsValid, scheduler_sound}
use ark_rust_kernel.Process.Worker.{WorkerState, worker_turn, do_yield}

ready_status : (o : Option ProcessStatus) → is_ready o ≡ true → o ≡ some ready
ready_status (some ready) e = refl
ready_status (some running) e = cc
ready_status (some suspend) e = cc
ready_status (some zombie) e = cc
ready_status none e = cc

-- On a CPU without a process, a turn makes the chosen process the current one and sets it running,
-- and no other; when it yields, every status is as it was before the turn.
pub turn_and_yield :
    (s : WorkerState) (c : Process) (q : ℕ)
    → IsValid s.manager
    → s.current_proc ≡ none
    → (scheduler s.manager s.statuses).0 ≡ some c
    → ((worker_turn s).current_proc ≡ some c)
      × ((worker_turn s).statuses q ≡ (if c.handle == q then some running else s.statuses q))
      × ((t : WorkerState) × (do_yield (worker_turn s) ≡ done t)
          × (t.current_proc ≡ none)
          × (t.statuses q ≡ s.statuses q))
unfolding worker_turn do_yield
turn_and_yield s c q v idle e =
    let was = ready_status (s.statuses c.handle) (scheduler_sound s.manager s.statuses v c e).0 in
    (
      ground (arith, e),
      ground (arith, e, idle, was),
      (
        record {
          manager = (worker_turn s).manager;
          statuses = yield_process c.handle (worker_turn s).statuses;
          current_proc = none;
        },
        ground (arith, e),
        refl,
        ground (arith, e, idle, was),
      ),
    )
