-- ===== src/Interrupt/Context.antt =====
-- `TrapContext` of src/interrupt/trap.rs: the registers of a process that is not running.
use ark_rust_kernel.Prelude.{ℕ, List, [], ◌∷◌, zero, suc}

pub record TrapContext : Type 0 where
  pub reg : List ℕ
  pub satp : ℕ
  pub sepc : ℕ
  pub sstatus : ℕ
  pub kernel_sp : ℕ

abbrev pub replicate : {A : Type 0} → ℕ → A → List A
replicate zero x = []
replicate (suc n) x = x ∷ replicate n x

abbrev pub new : TrapContext
new = record { reg = replicate 32 0; satp = 0; sepc = 0; sstatus = 0; kernel_sp = 0 }

-- The places of `sp`, `a0` and on to `a7` in `reg`
abbrev pub reg_sp : ℕ
reg_sp = 2

abbrev pub reg_a0 : ℕ
reg_a0 = 10

-- The two that `copy_from` copies. Both have 32 registers.
abbrev pub copy_from : TrapContext → TrapContext → TrapContext
copy_from self from = record self { sepc = from.sepc; reg = from.reg }
