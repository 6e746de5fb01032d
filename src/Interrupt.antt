-- ===== src/Interrupt.antt =====
-- src/interrupt: the table of handlers, and the interrupt controller.
pub mod Context
pub mod Table
pub mod Plic
mod Tests
