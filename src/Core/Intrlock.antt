-- ===== src/Core/Intrlock.antt =====
-- `Intrlock` of src/core/intrlock.rs over `InterruptSafeCell` of src/core/interrupt_safe_cell.rs.
-- Each phase ends with one atomic action of a CPU, in the order in which the source and the rules
-- on drops (`drop` first, then the fields) perform them.
use ark_rust_kernel.Prelude.{
  ℕ, ◌+◌, ◌^◌, ◌<◌, ◌≡◌, ◌≢◌, refl, ap, ◌∙◌, arith, List, [], ◌∷◌, Bool, true, false, not, ◌==◌,
  if◌then◌else◌, Outcome, done, panic, assert, ◌>>=◌, ◌>>◌,
}
use ark_rust_kernel.Cpu.Trap.{Cpu, push_interrupt, pop_interrupt}
use ark_rust_kernel.Cpu.Trap.Nesting.{is_consistent, Restored, pop_after}

pub data Phase : Type 0 where
  -- The loop of `lock`.
  waiting : Phase
  -- The lock is taken; `get` of the cell is next: `push_interrupt`, then `borrow_mut`.
  acquired : Phase
  -- The guard is held; its drop unlocks.
  guarded : Phase
  -- The drop of the reference is next, that is, `pop_interrupt`.
  unlocked : Phase
  -- The drop of the borrow is next.
  popped : Phase

pub record Shared : Type 0 where
  pub locked : Bool
  pub borrowed : Bool
  pub phase : ℕ → Phase
  pub cpus : ℕ → Cpu

abbrev pub set_phase : Shared → ℕ → Phase → ℕ → Phase
set_phase s c p d = if d == c then p else s.phase d

abbrev pub set_cpu : Shared → ℕ → Cpu → ℕ → Cpu
set_cpu s c p d = if d == c then p else s.cpus d

-- A round of the loop in `lock`
abbrev pub lock_round : Shared → ℕ → Shared
lock_round s c = if s.locked then s else record s { locked = true; phase = set_phase s c acquired }

-- `InterruptSafeCell::get`: a borrow of what is borrowed panics.
abbrev pub get : Shared → ℕ → Outcome Shared
get s c = do
  assert (not s.borrowed)
  done (record s {
    borrowed = true;
    phase = set_phase s c guarded;
    cpus = set_cpu s c (push_interrupt (s.cpus c));
  })

-- `Drop for InterruptSafeRefMut`
abbrev pub drop_ref : Shared → ℕ → Outcome Shared
drop_ref s c = do
  p ← pop_interrupt (s.cpus c)
  done (record s { phase = set_phase s c popped; cpus = set_cpu s c p })

unfoldable pub act : Shared → ℕ → Outcome Shared
act s c = elim (s.phase c) [
  | waiting ↦ done (lock_round s c)
  | acquired ↦ get s c
  | guarded ↦ done (record s { locked = false; phase = set_phase s c unlocked })
  | unlocked ↦ drop_ref s c
  | popped ↦ done (record s { borrowed = false; phase = set_phase s c waiting })
]

unfoldable pub schedule : Shared → List ℕ → Outcome Shared
schedule s [] = done s
schedule s (c ∷ cs) = do s' ← act s c; schedule s' cs

module _ (s : Shared) (c : ℕ) where
  taken : Shared
  taken = record s { locked = true; phase = set_phase s c acquired }

  held : Shared
  held = record s {
    locked = true;
    borrowed = true;
    phase = set_phase taken c guarded;
    cpus = set_cpu s c (push_interrupt (s.cpus c));
  }

  open_again : Shared
  open_again = record held { locked = false; phase = set_phase held c unlocked }

  over : Cpu → Shared
  over p = record open_again {
    borrowed = false;
    phase = set_phase (record open_again { phase = set_phase open_again c popped }) c waiting;
    cpus = set_cpu open_again c p;
  }

  alone :
      (p : Cpu)
      → s.phase c ≡ waiting
      → s.locked ≡ false
      → s.borrowed ≡ false
      → pop_interrupt (push_interrupt (s.cpus c)) ≡ done p
      → schedule s (c ∷ c ∷ c ∷ c ∷ c ∷ []) ≡ done (over p)
  unfolding schedule act over open_again held taken
  alone p w l b e = ground (arith, e)

  -- Alone, a CPU takes and drops the guard without a panic; the lock and the cell are free again,
  -- and its interrupts are as before.
  pub guard_restores :
      s.phase c ≡ waiting
      → s.locked ≡ false
      → s.borrowed ≡ false
      → is_consistent (s.cpus c) ≡ true
      → (s.cpus c).depth + 1 < 2 ^ 64
      → (t : Shared) × (schedule s (c ∷ c ∷ c ∷ c ∷ c ∷ []) ≡ done t)
        × (t.locked ≡ false)
        × (t.borrowed ≡ false)
        × ((t.cpus c).sie ≡ (s.cpus c).sie)
        × ((t.cpus c).depth ≡ (s.cpus c).depth)
  unfolding over open_again held taken
  guard_restores w l b v d =
      let same : Restored (push_interrupt (s.cpus c)) (push_interrupt (s.cpus c)) = record {
        sie = refl;
        depth = refl;
        enabled = λ n. refl;
      } in
      let (p, e, r) = pop_after (s.cpus c) (push_interrupt (s.cpus c)) v d same in
      let back : (over p).cpus c ≡ p = ground arith in
      (
        over p,
        alone p w l b e,
        refl,
        refl,
        ap (λ x. x.sie) back ∙ r.sie,
        ap (λ x. x.depth) back ∙ r.depth,
      )

-- Two CPUs can panic: the guard unlocks before its borrow ends, so a CPU that takes the lock in
-- between borrows what is still borrowed.
pub second_cpu_panics :
    (s : Shared) (a b : ℕ)
    → a ≢ b
    → s.phase a ≡ waiting
    → s.phase b ≡ waiting
    → s.locked ≡ false
    → s.borrowed ≡ false
    → schedule s (a ∷ a ∷ a ∷ b ∷ b ∷ []) ≡ panic
unfolding schedule act
second_cpu_panics s a b ne wa wb l f = ground arith
