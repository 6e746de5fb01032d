-- ===== src/Process/Life/Wait/Reap.antt =====
-- What `wait_for` of src/process/process.rs gives a parent whose children have exited.

use ark_rust_kernel.Prelude.{
  ℕ, suc, ◌≡◌, ◌≢◌, refl, ◌∙◌, ap, arith, List, ◌∷◌, none, some, Bool, true, false, ◌==◌,
  if◌then◌else◌, ltb, ok, done, ℤ, pos, contains,
}
use ark_rust_kernel.Prelude.Maps.{Map, get, remove, sorted, get-remove}
use ark_rust_kernel.Memory.Frames.{FrameAllocator, Machine}
use ark_rust_kernel.Process.Memory.{drop_tables, drop_user_pages}
use ark_rust_kernel.Process.Pid
use ark_rust_kernel.Process.Pid.{RecycleAllocator}
use ark_rust_kernel.Process.Pid.Fresh.{is_valid, live, free-live}
use ark_rust_kernel.Process.Life.{Family, strong_count}
use ark_rust_kernel.Process.Life.Wait.{
  returned, stuck, retain_live, find_zombie, drop_process, reap, sleep_on, no_zombie, by_zombie,
  by_children, keep_live, wait_turn,
}
use ark_rust_kernel.Process.Life.Wait.Find.{
  matches, turn_found, first_match, pid_in_kept, code_in_kept, find_zombie-kept,
}

-- What the reaping of a process leaves
abbrev without : {S : Type 0} → Family S → ℕ → Family S
without s c = record s { process_list = remove s.process_list (s.procs c).pid }

without_count :
    {S : Type 0} (s : Family S) (c : ℕ)
    → sorted 0 s.process_list ≡ true
    → strong_count (without s c) c ≡ s.held c
without_count s c order =
    ground (arith, get-remove 0 s.process_list (s.procs c).pid (s.procs c).pid order)

get-removed : (m : Map ℕ) (k : ℕ) → sorted 0 m ≡ true → get (remove m k) k ≡ none
get-removed m k order = ground (arith, get-remove 0 m k k order)

own_pid : (p : ℕ) (b : Bool) → (if p == p then false else b) ≡ false
own_pid p b = ground arith

module _ (fa : FrameAllocator) where
  -- The memory after the drop of a process
  abbrev given_back : Family fa.State → ℕ → Machine fa.State
  given_back s c =
      let d = s.procs c in
      drop_user_pages fa
        (drop_tables fa (drop_tables fa s.machine d.kernel_stack) d.memory.page_table.pages)
        d.memory.maps

  abbrev dropped : Family fa.State → ℕ → RecycleAllocator → Family fa.State
  dropped s c pids = record (without s c) { pids = pids; machine = given_back s c }

  reap_runs :
      (s : Family fa.State) (c : ℕ) (pids : RecycleAllocator)
      → strong_count (without s c) c ≡ 0
      → Pid.free s.pids (s.procs c).pid ≡ done pids
      → reap fa s c
        ≡ done (returned (ok (s.procs c).pid) (some (s.procs c).exit_code), dropped s c pids)
  unfolding reap drop_process
  reap_runs s c pids none_left freed = rw (none_left, freed) refl

module _ (fa : FrameAllocator) (s : Family fa.State) (caller : ℕ) (pid : ℤ) (option c : ℕ) where
  -- If a child is a zombie that the call waits for, and every such child is held by no CPU any more and
  -- has a pid in use, a round of `wait_for` returns the pid of such a child, writes its exit code,
  -- takes it out of the process table, and gives its pid back.
  pub wait_reaps :
      sorted 0 s.process_list ≡ true
      → is_valid s.pids ≡ true
      → contains (s.procs caller).children c ≡ true
      → matches s pid c ≡ true
      → ltb 0 (strong_count s c) ≡ true
      → ((d : ℕ)
          → contains (s.procs caller).children d ≡ true
          → matches s pid d ≡ true
          → (s.held d ≡ 0) × (live s.pids (s.procs d).pid ≡ true))
      → (d : ℕ) × (s' : Family fa.State) × (contains (s.procs caller).children d ≡ true)
        × (matches s pid d ≡ true)
        × (wait_turn fa s caller pid option
            ≡ done (returned (ok (s.procs d).pid) (some (s.procs d).exit_code), s'))
        × (get s'.process_list (s.procs d).pid ≡ none)
        × (live s'.pids (s.procs d).pid ≡ false)
        × (is_valid s'.pids ≡ true)
  wait_reaps order valid inside m alive ready =
      let (d, found, md, child) = first_match s caller pid c inside m alive in
      let (unheld, used) = ready d child md in
      let k = keep_live s caller in
      let (pids, freed, gone, valid') =
        free-live s.pids (s.procs d).pid (s.procs d).pid valid used in
      let counted : strong_count (without k d) d ≡ 0 = without_count k d order ∙ unheld in
      let freed' = ap (λ (p : ℕ). Pid.free s.pids p) (pid_in_kept s caller d) ∙ freed in
      (
        d,
        dropped fa k d pids,
        child,
        md,
        turn_found fa s caller pid option d (retain_live s (s.procs caller).children) refl found
            ∙ reap_runs fa k d pids counted freed'
            ∙ ap
                (λ (p : ℕ).
                  done (returned (ok p) (some (k.procs d).exit_code), dropped fa k d pids))
                (pid_in_kept s caller d)
            ∙ ap (λ (e : ℕ). done (returned (ok (s.procs d).pid) (some e), dropped fa k d pids))
                (code_in_kept s caller d),
        ap (λ (p : ℕ). get (remove s.process_list p) (s.procs d).pid) (pid_in_kept s caller d)
            ∙ get-removed s.process_list (s.procs d).pid order,
        gone ∙ own_pid (s.procs d).pid (live s.pids (s.procs d).pid),
        valid',
      )

turn_waits :
    (fa : FrameAllocator) (s : Family fa.State) (caller : ℕ) (pid : ℤ) (option c : ℕ)
    (rest : List ℕ)
    → retain_live s (s.procs caller).children ≡ c ∷ rest
    → find_zombie s pid (c ∷ rest) ≡ none
    → wait_turn fa s caller pid option ≡ done (no_zombie (keep_live s caller) caller pid option)
unfolding wait_turn
turn_waits fa s caller pid option c rest r f =
    ap (by_children fa (keep_live s caller) caller pid option) r
    ∙ ap (by_zombie fa (keep_live s caller) caller pid option)
        (find_zombie-kept s caller pid (c ∷ rest) ∙ f)

-- A process with a live child that waits for its own pid, without `WNOHANG`, never gets out of the
-- round: it spins on its own lock.
pub wait_own_stuck :
    (fa : FrameAllocator) (s : Family fa.State) (caller n option c : ℕ) (rest : List ℕ)
    → retain_live s (s.procs caller).children ≡ c ∷ rest
    → find_zombie s (pos (suc n)) (c ∷ rest) ≡ none
    → get s.process_list (suc n) ≡ some caller
    → option ≢ 1
    → wait_turn fa s caller (pos (suc n)) option ≡ done (stuck, keep_live s caller)
unfolding sleep_on
wait_own_stuck fa s caller n option c rest r f own waits =
    turn_waits fa s caller (pos (suc n)) option c rest r f ∙ ground (arith, own, waits)
