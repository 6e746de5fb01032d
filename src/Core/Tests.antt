-- ===== src/Core/Tests.antt =====
-- The theorems on the locks of src/core at concrete runs.
use ark_rust_kernel.Prelude.{ℕ, ◌≡◌, refl, [], ◌∷◌}
use ark_rust_kernel.Core.Spinlock
use ark_rust_kernel.Core.Spinlock.{Spinning, spinlock_exclusive, try_lock, unlock}

-- CPU 1 locks, CPU 2 spins twice, CPU 1 unlocks, CPU 2 locks.
abbrev second : ℕ
second = 2

two_cpus : (Spinlock.schedule Spinlock.new (1 ∷ 2 ∷ 2 ∷ 1 ∷ 2 ∷ [])).phase 2 ≡ Spinlock.holding
unfolding Spinlock.schedule Spinlock.act try_lock unlock
two_cpus = refl

spinlock_exclusive_example : second ≡ second
spinlock_exclusive_example = spinlock_exclusive (1 ∷ 2 ∷ 2 ∷ 1 ∷ 2 ∷ []) 2 2 two_cpus two_cpus
