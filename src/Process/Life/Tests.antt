-- ===== src/Process/Life/Tests.antt =====
-- The theorems on `fork`, `exit` and `wait_for` of src/process/process.rs at three processes: 1,
-- its child 2, and the child 3 of that.
use ark_rust_kernel.Prelude.{
  ℕ, ◌≡◌, refl, arith, Bool, true, false, List, [], ◌∷◌, Option, some, none, Outcome, done, panic,
  contains, ok, ◌==◌, if◌then◌else◌, pos,
}
use ark_rust_kernel.Prelude.Maps.{get}
use ark_rust_kernel.Memory.Frames.{bump, bump_alloc, phy_page_alloc}
use ark_rust_kernel.Memory.Entry.{unknown, valid}
use ark_rust_kernel.Memory.Paging
use ark_rust_kernel.Interrupt.Context
use ark_rust_kernel.Process.Status.{ProcessStatus, ready, running, zombie}
use ark_rust_kernel.Process.Condvar
use ark_rust_kernel.Process.Memory.{ProcessMemory, World, kernel_table}
use ark_rust_kernel.Process.Memory
use ark_rust_kernel.Process.Memory.Mmap.{copy_from, copy_loop}
use ark_rust_kernel.Process.Pid.Fresh.{is_valid, live}
use ark_rust_kernel.Process.Life.{ProcessData, Family, getppid}
use ark_rust_kernel.Process.Life.Fork.{fork, copy_files, pad_loop}
use ark_rust_kernel.Process.Life.Fork.Files.{opened, fork_files, fork-getppid}
use ark_rust_kernel.Process.Life.Exit.{exit, close_files, wake_all}
use ark_rust_kernel.Process.Life.Exit.Close.{exit_closes}
use ark_rust_kernel.Process.Life.Exit.Reparent.{exit_orphans, exit_orphan-getppid, reaped}
use ark_rust_kernel.Process.Life.Wait.{
  returned, stuck, wait_turn, retain_live, find_zombie, keep_live,
}
use ark_rust_kernel.Process.Life.Wait.Find.{matches}
use ark_rust_kernel.Process.Life.Wait.Reap.{wait_reaps, wait_own_stuck}

abbrev no_memory : ProcessMemory
no_memory = record {
  page_table = record { entries = 0; pages = [] };
  maps = [];
  prog_end = 0;
  min_brk = 0;
  brk = 0;
  stack_base = 0;
  stack_top = 0;
  mmap_base = 0;
}

abbrev proc : ℕ → ProcessStatus → Option ℕ → List ℕ → List (Option ℕ) → ProcessData
proc pid status parent children files = record {
  pid = pid;
  status = status;
  exit_code = 7;
  parent = parent;
  children = children;
  kernel_stack = [];
  trap_context = Context.new;
  memory = no_memory;
  cwd = 0;
  files = files;
  condvar_waiting_for_exit = Condvar.new;
}

abbrev three : ℕ → ProcessData
three h =
    if h == 1
    then proc 1 ready none (2 ∷ []) []
    else if h == 2
    then proc 2 running (some 1) (3 ∷ []) (some 5 ∷ none ∷ none ∷ some 6 ∷ [])
    else proc 3 ready (some 2) [] []

-- Process 2 runs, and is about to exit.
abbrev family : Family ℕ
family = record {
  machine = record { cells = λ p i. 0; frames = 5 };
  procs = three;
  process_list = (1, 1) ∷ (2, 2) ∷ (3, 3) ∷ [];
  held = λ h. if h == 2 then 2 else 0;
  pids = record { max_id = 3; free_ids = [] };
  open_files = record { strong = λ f. if f == 5 then 1 else 2; closed = λ f. false };
}

abbrev all_close : ℕ → Bool
all_close f = true

abbrev family_or : Family ℕ → Outcome (Family ℕ) → Family ℕ
family_or d (done s) = s
family_or d panic = d

exited : Family ℕ
exited = family_or family (exit bump (unknown 0) all_close family 2 9)

is_exited : exit bump (unknown 0) all_close family 2 9 ≡ done exited
unfolding exited exit close_files wake_all Memory.reset kernel_table Paging.new Paging.map_big
    Paging.set_pte valid phy_page_alloc bump_alloc
is_exited = refl

exit_closes_example : (exited.open_files.strong 5 ≡ 0) × (exited.open_files.closed 5 ≡ true)
exit_closes_example =
    exit_closes bump (unknown 0) all_close family 2 9 exited 5 (omega arith) is_exited

exit_orphans_example : (exited.procs 1).children ≡ 2 ∷ 3 ∷ []
exit_orphans_example =
    exit_orphans bump (unknown 0) all_close family 2 9 1 exited refl (λ e. omega arith) is_exited

exit_orphan-getppid_example : getppid (reaped exited 2) 3 ≡ ok 0
unfolding exited exit close_files wake_all Memory.reset kernel_table Paging.new Paging.map_big
    Paging.set_pte valid phy_page_alloc bump_alloc
exit_orphan-getppid_example =
    exit_orphan-getppid bump (unknown 0) all_close family 2 9 3 exited refl refl is_exited

-- Process 2 has exited, and is held by no CPU or by one.
abbrev after : ℕ → Family ℕ
after n = record family {
  procs = λ h. if h == 2 then proc 2 zombie (some 1) [] [] else three h;
  held = λ h. if h == 2 then n else 0;
}

only_two : (n d : ℕ) → matches (after n) (pos 2) d ≡ true → d ≡ 2
only_two n d m = ground arith

reaps_ready :
    (d : ℕ)
    → contains ((after 0).procs 1).children d ≡ true
    → matches (after 0) (pos 2) d ≡ true
    → ((after 0).held d ≡ 0) × (live (after 0).pids ((after 0).procs d).pid ≡ true)
reaps_ready d child m = let same = only_two 0 d m in (ground arith, ground arith)

wait_reaps_example :
    (d : ℕ) × (s' : Family ℕ) × (contains ((after 0).procs 1).children d ≡ true)
    × (matches (after 0) (pos 2) d ≡ true)
    × (wait_turn bump (after 0) 1 (pos 2) 0
        ≡ done (returned (ok ((after 0).procs d).pid) (some ((after 0).procs d).exit_code), s'))
    × (get s'.process_list ((after 0).procs d).pid ≡ none)
    × (live s'.pids ((after 0).procs d).pid ≡ false)
    × (is_valid s'.pids ≡ true)
wait_reaps_example = wait_reaps bump (after 0) 1 (pos 2) 0 2 refl refl refl refl refl reaps_ready

wait_own_stuck_example : wait_turn bump family 1 (pos 1) 0 ≡ done (stuck, keep_live family 1)
unfolding retain_live find_zombie
wait_own_stuck_example = wait_own_stuck bump family 1 0 0 2 [] refl refl refl (λ e. omega arith)

-- What `Process::new` makes, for the handle 4
abbrev made : ProcessData
made = proc 4 ready none [] (some 0 ∷ some 1 ∷ some 1 ∷ [])

abbrev pair_or : ℕ × Family ℕ → Outcome (ℕ × Family ℕ) → ℕ × Family ℕ
pair_or d (done s) = s
pair_or d panic = d

forked_family : ℕ × Family ℕ
forked_family = pair_or (0, family) (fork bump (unknown 0) family 2 4 made)

is_forked : fork bump (unknown 0) family 2 4 made ≡ done forked_family
unfolding forked_family fork copy_from copy_loop copy_files pad_loop
is_forked = refl

fork_files_example : opened (forked_family.1.procs 4).files 3 ≡ some 6
fork_files_example =
    fork_files bump (unknown 0) family 2 4 made forked_family.0 forked_family.1 3 (λ h. refl)
      is_forked

fork-getppid_example : getppid forked_family.1 4 ≡ ok 2
fork-getppid_example =
    fork-getppid bump (unknown 0) family 2 4 made forked_family.0 forked_family.1 (omega arith)
      (λ e. omega arith) is_forked
