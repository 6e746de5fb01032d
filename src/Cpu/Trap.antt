-- ===== src/Cpu/Trap.antt =====
-- `push_interrupt` and `pop_interrupt` of src/cpu/mod.rs. `sie` is the interrupt bit of `sstatus`;
-- the two other fields are `trap_info`.
pub mod Nesting
mod Tests
use ark_rust_kernel.Prelude.{
  ℕ, ◌-◌, Bool, true, false, ◌&&◌, not, ◌==◌, if◌then◌else◌, add_usize, Outcome, done, panic,
  assert, ◌>>=◌, ◌>>◌,
}

pub record Cpu : Type 0 where
  pub sie : Bool
  pub depth : ℕ
  pub enabled : Bool

abbrev pub new : Bool → Cpu
new sie = record { sie = sie; depth = 0; enabled = false }

unfoldable pub push_interrupt : Cpu → Cpu
push_interrupt c = record {
  sie = false;
  depth = add_usize c.depth 1;
  enabled = if c.depth == 0 then c.sie else c.enabled;
}

unfoldable pub pop_interrupt : Cpu → Outcome Cpu
pop_interrupt c = do
  assert (not c.sie)
  assert (not (c.depth == 0))
  done (record c {
    sie = if c.depth - 1 == 0 && c.enabled then true else c.sie;
    depth = c.depth - 1;
  })

abbrev pub get_trap_enabled : Cpu → Bool
get_trap_enabled c = c.enabled

abbrev pub set_trap_enabled : Cpu → Bool → Cpu
set_trap_enabled c enabled = record c { enabled = enabled }
