-- ===== src/Cpu.antt =====
-- src/cpu/mod.rs: the interrupts that the code on a CPU has disabled, and how often.
pub mod Trap
