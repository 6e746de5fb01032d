-- ===== src/Cpu/Trap/Tests.antt =====
-- The theorem on nested sections of src/cpu/mod.rs at a concrete nesting.
use ark_rust_kernel.Prelude.{◌≡◌, refl, arith, true, false, done}
use ark_rust_kernel.Cpu.Trap.{Cpu, push_interrupt, pop_interrupt}
use ark_rust_kernel.Cpu.Trap.Nesting.{Code, idle, section, run, Restored, sections_restore}

abbrev on : Cpu
on = record { sie = true; depth = 0; enabled = false }

-- Two sections inside one, and one more.
abbrev nested : Code
nested = section (section idle (section idle idle)) (section idle idle)

run-nested : run nested on ≡ done (record on { enabled = true })
unfolding run push_interrupt pop_interrupt
run-nested = refl

sections_restore_example : (d : Cpu) × (run nested on ≡ done d) × Restored on d
sections_restore_example = sections_restore nested on refl (omega arith)
