-- ===== src/Process/Manager/Fair.antt =====
-- The scheduler of src/process/process.rs starves no process.
use ark_rust_kernel.Prelude.{
  ℕ, ◌≤◌, ◌<◌, ◌≡◌, arith, List, [], ◌∷◌, none, some, Bool, true, false, ◌&&◌, ◌||◌, ◌==◌,
  if◌then◌else◌, Bool-cases, inl, inr, length,
}
use ark_rust_kernel.Prelude.Maps.{insert, get, get-insert}
use ark_rust_kernel.Process.Status.{StatusTable}
use ark_rust_kernel.Process.Manager.{Process, ProcessManager, is_ready, scheduler, spawn}
use ark_rust_kernel.Process.Manager.Scheduler.{
  ascending, ascending_weaken, IsValid, rank, choose-rank, scheduler_sound,
}

-- Whether pid `q` is chosen by one of the calls of `scheduler`, at the statuses of each call.
unfoldable pub served : ProcessManager → ℕ → List StatusTable → Bool
served m q [] = false
served m q (t ∷ ts) =
    let later = served (scheduler m t).1 q ts in
    elim (scheduler m t).0 [ some c ↦ c.pid == q || later | none ↦ later ]

abbrev pub always_ready : ℕ → List StatusTable → Bool
always_ready h [] = true
always_ready h (t ∷ ts) = is_ready (t h) && always_ready h ts

module _ (l : List (ℕ × Process)) (n q : ℕ) (r : Process) (sorted : ascending 0 l ≡ true)
    (present : get l q ≡ some r) (bound : (k : ℕ) (p : Process) → get l k ≡ some p → k < n) where
  served_within :
      (prev : ℕ) (ts : List StatusTable)
      → prev < n
      → always_ready r.handle ts ≡ true
      → rank n prev q ≤ length ts
      → served (record { process_list = l; previous_scheduled_pid = prev }) q ts ≡ true
  unfolding served scheduler
  served_within prev [] h s k = absurd (ground (arith, bound q r present))
  served_within prev (t ∷ ts) h s k =
      let m : ProcessManager = record { process_list = l; previous_scheduled_pid = prev } in
      let (c, chosen, closer) =
        choose-rank m t (record { sorted = sorted }) n q r present (ground arith) bound h in
      let in_table =
        scheduler_sound m t (record { sorted = sorted }) c
          (let e : (scheduler m t).0 ≡ some c = ground arith in e) in
      elim closer [
        | inl found ↦ ground arith
        | inr nearer ↦
            let rest =
              served_within c.pid ts (bound c.pid c in_table.1) (ground arith) (ground arith) in
            ground arith
      ]

-- A process that stays ready is chosen within `n` calls, where all pids are below `n`.
pub no_starvation :
    (m : ProcessManager) (n q : ℕ) (r : Process) (ts : List StatusTable)
    → IsValid m
    → get m.process_list q ≡ some r
    → ((k : ℕ) (p : Process) → get m.process_list k ≡ some p → k < n)
    → m.previous_scheduled_pid < n
    → always_ready r.handle ts ≡ true
    → n ≤ length ts
    → served m q ts ≡ true
no_starvation m n q r ts v present bound h s k =
    served_within m.process_list n q r v.sorted present bound m.previous_scheduled_pid ts h s
      (ground (arith, bound q r present))

-- The scheduler finds nothing only where no process of the table is ready.
pub idle_none_ready :
    (m : ProcessManager) (t : StatusTable) (n q : ℕ) (r : Process)
    → IsValid m
    → get m.process_list q ≡ some r
    → ((k : ℕ) (p : Process) → get m.process_list k ≡ some p → k < n)
    → m.previous_scheduled_pid < n
    → (scheduler m t).0 ≡ none
    → is_ready (t r.handle) ≡ false
unfolding scheduler
idle_none_ready m t n q r v present bound h e = elim (Bool-cases (is_ready (t r.handle))) [
  | inl runs ↦
      let (c, chosen, closer) = choose-rank m t v n q r present runs bound h in
      absurd (ground arith)
  | inr asleep ↦ asleep
]

insert-ascending :
    (lo : ℕ) (l : List (ℕ × Process)) (p : Process)
    → lo < p.pid
    → ascending lo l ≡ true
    → ascending lo (insert l p.pid p) ≡ true
insert-ascending lo [] p h a = ground arith
insert-ascending lo ((pid, proc) ∷ rest) p h a =
    ground (arith, insert-ascending pid rest p, ascending_weaken p.pid pid rest)

-- `spawn` keeps the table valid, adds the process under its pid, and changes no other entry.
pub spawn_adds :
    (m : ProcessManager) (p : Process) (q : ℕ)
    → IsValid m
    → 0 < p.pid
    → IsValid (spawn m p)
      × (get (spawn m p).process_list q ≡ (if q == p.pid then some p else get m.process_list q))
unfolding spawn
spawn_adds m p q v h = (
  record { sorted = insert-ascending 0 m.process_list p h v.sorted },
  get-insert m.process_list p.pid q p,
)
