-- ===== src/Interrupt/Tests.antt =====
-- The theorems on src/interrupt at concrete interrupts.
use ark_rust_kernel.Prelude.{◌≡◌, arith, true}
use ark_rust_kernel.Interrupt.Plic.{supervisor, set_irq_priority, enable_irq_for}
use ark_rust_kernel.Interrupt.Plic.Enable.{source_enabled, enables_source}

-- Interrupt 10 enables source 18.
enables_source_example :
    source_enabled
      (enable_irq_for
        (set_irq_priority (λ x. 0) 0xDC00_0000 10 supervisor)
        0xDC00_0000
        0
        supervisor
        10)
      0xDC00_0000
      0
      supervisor
      18
    ≡ true
enables_source_example =
    enables_source (set_irq_priority (λ x. 0) 0xDC00_0000 10 supervisor) 0xDC00_0000 0 10 supervisor
      (λ x low high. ground arith) (omega arith) (omega arith) 18 (omega arith)
