-- ===== src/Process/Manager/Scheduler.antt =====
-- What the scheduler of src/process/process.rs chooses.
use ark_rust_kernel.Prelude.{
  ℕ, ◌+◌, ◌-◌, ◌≤◌, ◌<◌, ◌≡◌, refl, arith, List, [], ◌∷◌, none, some, Bool, true, ◌&&◌, ltb, leb,
  ◌==◌, if◌then◌else◌, Option-cases, Bool-cases, ◌⊎◌, inl, inr,
}
use ark_rust_kernel.Prelude.Maps.{get}
use ark_rust_kernel.Process.Status.{StatusTable}
use ark_rust_kernel.Process.Manager.{
  Process, ProcessManager, is_ready, find_ready, choose, scheduler,
}

-- The keys ascend from above `lo`, and each is the pid of its process.
abbrev pub ascending : ℕ → List (ℕ × Process) → Bool
ascending lo [] = true
ascending lo ((pid, proc) ∷ rest) = ltb lo pid && proc.pid == pid && ascending pid rest

pub record IsValid (m : ProcessManager) : Type 0 where
  pub sorted : ascending 0 m.process_list ≡ true

pub ascending_weaken :
    (lo hi : ℕ) (l : List (ℕ × Process)) → lo ≤ hi → ascending hi l ≡ true → ascending lo l ≡ true
ascending_weaken lo hi [] h a = refl
ascending_weaken lo hi ((pid, proc) ∷ rest) h a = ground arith

get-pid :
    (lo : ℕ) (l : List (ℕ × Process)) (q : ℕ) (r : Process)
    → ascending lo l ≡ true
    → get l q ≡ some r
    → (r.pid ≡ q) × (lo < q)
get-pid lo [] q r a e = cc
get-pid lo ((pid, proc) ∷ rest) q r a e = ground (arith, get-pid pid rest q r)

-- What is found passes the test, is ready, and is in the list.
find_ready_sound :
    (keep : ℕ → Bool) (t : StatusTable) (lo : ℕ) (l : List (ℕ × Process)) (c : Process)
    → ascending lo l ≡ true
    → find_ready keep t l ≡ some c
    → (keep c.pid ≡ true) × (is_ready (t c.handle) ≡ true) × (get l c.pid ≡ some c) × (lo < c.pid)
unfolding find_ready
find_ready_sound keep t lo [] c a e = cc
find_ready_sound keep t lo ((pid, proc) ∷ rest) c a e =
    ground (arith, find_ready_sound keep t pid rest c)

-- Of the processes that pass, the one with the least pid is found.
find_ready_least :
    (keep : ℕ → Bool) (t : StatusTable) (lo : ℕ) (l : List (ℕ × Process)) (q : ℕ) (r : Process)
    → ascending lo l ≡ true
    → get l q ≡ some r
    → keep q ≡ true
    → is_ready (t r.handle) ≡ true
    → (c : Process) × (find_ready keep t l ≡ some c) × (c.pid ≤ q)
unfolding find_ready
find_ready_least keep t lo [] q r a e k s = cc
find_ready_least keep t lo ((pid, proc) ∷ rest) q r a e k s =
    elim (Bool-cases (keep pid && is_ready (t proc.handle))) [
      | inl found ↦ (proc, ground arith, ground (arith, get-pid pid rest q r))
      | inr skipped ↦
          let (c, f, le) = find_ready_least keep t pid rest q r (ground arith) (ground arith) k s in
          (c, ground arith, le)
    ]

module _ (m : ProcessManager) (t : StatusTable) (v : IsValid m) where
  -- A chosen process is ready and in the table under its pid, which is remembered.
  pub scheduler_sound :
      (c : Process)
      → (scheduler m t).0 ≡ some c
      → (is_ready (t c.handle) ≡ true)
        × (get m.process_list c.pid ≡ some c)
        × ((scheduler m t).1 ≡ record m { previous_scheduled_pid = c.pid })
  unfolding scheduler choose
  scheduler_sound c e = ground (
    arith,
    find_ready_sound (λ pid. ltb m.previous_scheduled_pid pid) t 0 m.process_list c v.sorted,
    find_ready_sound (λ pid. leb pid m.previous_scheduled_pid) t 0 m.process_list c v.sorted,
  )

-- How many choices a pid is away when the last choice is `prev`, of pids below `n`.
abbrev pub rank : ℕ → ℕ → ℕ → ℕ
rank n prev q = if ltb prev q then q - prev else q + n - prev

module _ (m : ProcessManager) (t : StatusTable) (v : IsValid m) (n q : ℕ) (r : Process)
    (present : get m.process_list q ≡ some r) (runs : is_ready (t r.handle) ≡ true)
    (bound : (k : ℕ) (p : Process) → get m.process_list k ≡ some p → k < n)
    (prev : m.previous_scheduled_pid < n) where
  behind :
      (c : Process)
      → find_ready (λ pid. ltb m.previous_scheduled_pid pid) t m.process_list ≡ some c
      → (c.pid ≡ q) ⊎ (rank n c.pid q < rank n m.previous_scheduled_pid q)
  behind c f = elim (Bool-cases (ltb m.previous_scheduled_pid q)) [
    | inl after ↦
        let (d, g, le) =
          find_ready_least (λ pid. ltb m.previous_scheduled_pid pid) t 0 m.process_list q r v.sorted
            present after runs in
        ground (arith, sound, bound c.pid c)
    | inr before ↦ ground (arith, sound, bound c.pid c)
  ]
    where
      sound :
          (ltb m.previous_scheduled_pid c.pid ≡ true)
          × (is_ready (t c.handle) ≡ true)
          × (get m.process_list c.pid ≡ some c)
          × (0 < c.pid)
      sound =
          find_ready_sound (λ pid. ltb m.previous_scheduled_pid pid) t 0 m.process_list c v.sorted f

  around :
      find_ready (λ pid. ltb m.previous_scheduled_pid pid) t m.process_list ≡ none
      → (c : Process) × (choose m t ≡ some c)
        × ((c.pid ≡ q) ⊎ (rank n c.pid q < rank n m.previous_scheduled_pid q))
  unfolding choose
  around f = elim (Bool-cases (ltb m.previous_scheduled_pid q)) [
    | inl after ↦
        let (d, g, le) =
          find_ready_least (λ pid. ltb m.previous_scheduled_pid pid) t 0 m.process_list q r v.sorted
            present after runs in
        absurd (ground (arith, f, g))
    | inr before ↦
        let (c, g, le) =
          find_ready_least (λ pid. leb pid m.previous_scheduled_pid) t 0 m.process_list q r v.sorted
            present (ground arith) runs in
        (c, ground (arith, f, g), ground (arith, before, bound q r present))
  ]

  -- Where a process is ready, one is chosen: that process, or one that brings it closer to its
  -- turn.
  pub choose-rank :
      (c : Process) × (choose m t ≡ some c)
      × ((c.pid ≡ q) ⊎ (rank n c.pid q < rank n m.previous_scheduled_pid q))
  unfolding choose
  choose-rank =
      elim (Option-cases (find_ready (λ pid. ltb m.previous_scheduled_pid pid) t m.process_list)) [
        | inl f ↦ around f
        | inr (c, f) ↦ (c, ground (arith, f), behind c f)
      ]
