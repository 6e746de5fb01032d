-- ===== src/Core/Spinlock.antt =====
-- `Spinlock` of src/core/spinlock.rs. An atomic action of a CPU is one step, and what the CPUs do
-- together is a sequence of steps in any order.
use ark_rust_kernel.Prelude.{
  ℕ, ◌≡◌, arith, List, [], ◌∷◌, Bool, true, false, ◌==◌, if◌then◌else◌, Result, ok, err, Bool-cases,
  inl, inr,
}

-- `compare_exchange(false, true)`: what it returns, and the value that is left.
abbrev pub compare_exchange : Bool → Result Bool Bool × Bool
compare_exchange false = (ok false, true)
compare_exchange true = (err true, true)

-- A CPU tries to lock, or has a guard, which it will drop.
pub data Phase : Type 0 where
  waiting holding : Phase

pub record Spinning : Type 0 where
  pub locked : Bool
  pub phase : ℕ → Phase

abbrev pub set_phase : (ℕ → Phase) → ℕ → Phase → ℕ → Phase
set_phase f c p d = if d == c then p else f d

-- `Spinlock::new`
abbrev pub new : Spinning
new = record { locked = false; phase = λ c. waiting }

-- A round of the loop in `lock`; `try_lock` is one such round.
unfoldable pub try_lock : ℕ → Spinning → Spinning
try_lock c s =
    let (result, b) = compare_exchange s.locked in
    elim result [
      | ok _ ↦ record { locked = b; phase = set_phase s.phase c holding }
      | err _ ↦ record s { locked = b }
    ]

-- `Drop for SpinlockGuard`, that is, `unlock`
unfoldable pub unlock : ℕ → Spinning → Spinning
unlock c s = record { locked = false; phase = set_phase s.phase c waiting }

unfoldable pub act : Spinning → ℕ → Spinning
unfolding try_lock unlock
act s c = elim (s.phase c) [ waiting ↦ try_lock c s | holding ↦ unlock c s ]

-- The CPUs of the list act one after another.
unfoldable pub schedule : Spinning → List ℕ → Spinning
schedule s [] = s
schedule s (c ∷ cs) = schedule (act s c) cs

-- Who holds the lock is one CPU, and the lock is then locked.
abbrev IsExclusive : Spinning → Type 0
IsExclusive s =
    ((c : ℕ) → s.phase c ≡ holding → s.locked ≡ true)
    × ((c d : ℕ) → s.phase c ≡ holding → s.phase d ≡ holding → c ≡ d)

act-IsExclusive : (s : Spinning) (c : ℕ) → IsExclusive s → IsExclusive (act s c)
unfolding act try_lock unlock
act-IsExclusive s c (locks, one) = elim (Bool-cases s.locked) [
  | inl shut ↦ (
    λ d h. ground (arith, shut, locks d, one c d),
    λ d e h k. ground (arith, shut, one d e, one c d, one c e),
  )
  | inr free ↦ (
    λ d h. ground (arith, free, locks d, locks c),
    λ d e h k. ground (arith, free, locks d, locks e, locks c),
  )
]

schedule-IsExclusive : (cs : List ℕ) (s : Spinning) → IsExclusive s → IsExclusive (schedule s cs)
unfolding schedule
schedule-IsExclusive [] s h = h
schedule-IsExclusive (c ∷ cs) s h = schedule-IsExclusive cs (act s c) (act-IsExclusive s c h)

-- Whatever the CPUs do, in any order, two guards of one lock are never held at once.
pub spinlock_exclusive :
    (cs : List ℕ) (c d : ℕ)
    → (schedule new cs).phase c ≡ holding
    → (schedule new cs).phase d ≡ holding
    → c ≡ d
spinlock_exclusive cs = (schedule-IsExclusive cs new (λ c h. cc, λ c d h k. cc)).1
