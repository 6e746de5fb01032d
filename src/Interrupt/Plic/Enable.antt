-- ===== src/Interrupt/Plic/Enable.antt =====
-- Which interrupt source `enable_irq` of src/interrupt/plic.rs enables. By the specification of the
-- controller, source `n` is bit `n % 32` of the word `n / 32` of the enable bits of a context, that
-- is, bit `n % 8` of byte `n / 8`.
use ark_rust_kernel.Prelude.{
  ℕ, ◌+◌, ◌*◌, ◌/◌, ◌%◌, ◌^◌, ◌<◌, ◌≤◌, ◌≡◌, ◌∙◌, refl, ap, arith, Bool, true, false, not, ltb,
  ltb→lt, as_isize, Bool-cases, inl, inr, bit_or, ◌==◌, if◌then◌else◌,
}
use ark_rust_kernel.Prelude.Bits.{holds_below, holds_below_lem, zero-bit_or}
use ark_rust_kernel.Memory.Address.{VirtAddr, to_offset}
use ark_rust_kernel.Interrupt.Plic.{
  Registers, PlicPriority, enable_irq_for, get_int_enable_offset_for_hart, read, write,
  get_int_enable_offset_for_hart_and_irq,
}

abbrev pub source_enabled : Registers → VirtAddr → ℕ → PlicPriority → ℕ → Bool
source_enabled r base hartid priority n =
    r (base + get_int_enable_offset_for_hart hartid priority + n / 8) / 2 ^ (n % 8) % 2 == 1

abbrev agree : Bool → Bool → Bool
agree true b = b
agree false b = not b

agree-≡ : (a b : Bool) → agree a b ≡ true → a ≡ b
agree-≡ true true h = refl
agree-≡ true false h = cc
agree-≡ false true h = cc
agree-≡ false false h = refl

-- Of a power of two below 16, each bit by evaluation.
abbrev bit_row : ℕ → ℕ → Bool
bit_row k j = agree (2 ^ k / 2 ^ j % 2 == 1) (k == j)

bit_table : holds_below (λ k. holds_below (bit_row k) 8) 4 ≡ true
unfolding holds_below
bit_table = refl

bit_of : (k j : ℕ) → k < 4 → j < 8 → (2 ^ k / 2 ^ j % 2 == 1) ≡ (k == j)
bit_of k j h l = agree-≡ (2 ^ k / 2 ^ j % 2 == 1) (k == j) (
    holds_below_lem (bit_row k) 8 j
      (holds_below_lem (λ i. holds_below (bit_row i) 8) 4 k bit_table h) l)

power_table : holds_below (λ k. ltb (2 ^ k) 16) 4 ≡ true
unfolding holds_below
power_table = refl

small_power : (k : ℕ) → k < 4 → 2 ^ k < 16
small_power k h = ltb→lt (2 ^ k) 16 (holds_below_lem (λ i. ltb (2 ^ i) 16) 4 k power_table h)

module _ (r : Registers) (base : VirtAddr) (offset first : ℕ)
    (clear : (x : ℕ) → first ≤ x → x < first + 128 → r x ≡ 0) (low : first ≤ base + offset)
    (high : base + offset + 4 ≤ first + 128) (fits : base + offset < 2 ^ 63) where
  read-clear : read r base offset ≡ 0
  read-clear =
      let at : to_offset base (as_isize offset) ≡ base + offset = ground arith in
      let a = base + offset in
      omega (
        arith,
        ap r at,
        ap (λ (x : ℕ). r (x + 1)) at,
        ap (λ (x : ℕ). r (x + 2)) at,
        ap (λ (x : ℕ). r (x + 3)) at,
        clear a (omega arith) (omega arith),
        clear (a + 1) (omega arith) (omega arith),
        clear (a + 2) (omega arith) (omega arith),
        clear (a + 3) (omega arith) (omega arith),
      )

  write_low :
      (v x : ℕ)
      → v < 16
      → first ≤ x
      → x < first + 128
      → write r base offset v x ≡ (if x == base + offset then v else 0)
  write_low v x h above below =
      let at : to_offset base (as_isize offset) ≡ base + offset = ground arith in
      ground (arith, at, clear x above below)

module _ (r : Registers) (base : VirtAddr) (hartid irq : ℕ) (priority : PlicPriority)
    (clear : (x : ℕ)
      → base + get_int_enable_offset_for_hart hartid priority ≤ x
      → x < base + get_int_enable_offset_for_hart hartid priority + 128
      → r x ≡ 0)
    (inside : irq / 4 + 4 ≤ 128)
    (fits : base + get_int_enable_offset_for_hart hartid priority + irq < 2 ^ 63) where
  abbrev first : ℕ
  first = base + get_int_enable_offset_for_hart hartid priority

  -- The byte that `enable_irq` writes.
  enabled_byte :
      (x : ℕ)
      → first ≤ x
      → x < first + 128
      → enable_irq_for r base hartid priority irq x
        ≡ (if x == first + irq / 4 then 2 ^ (irq % 4) else 0)
  unfolding enable_irq_for
  enabled_byte x above below =
      let offset = get_int_enable_offset_for_hart_and_irq hartid priority irq in
      ap (λ v. write r base offset v x)
        (ap (λ v. bit_or v (2 ^ (irq % 4)))
            (read-clear r base offset first clear (omega arith) (omega arith) (omega arith))
          ∙ zero-bit_or (2 ^ (irq % 4)))
      ∙ write_low r base offset first clear (omega arith) (omega arith) (omega arith)
          (2 ^ (irq % 4)) x (small_power (irq % 4) (omega arith)) above below
      ∙ (let same : (if x == base + offset then 2 ^ (irq % 4) else 0) ≡ (
              if x == base + get_int_enable_offset_for_hart hartid priority + irq / 4
              then 2 ^ (irq % 4)
              else 0) =
            ground arith in
          same)

  -- Where no source of the context is enabled, and the word that is written lies in the 128 bytes of
  -- the context, `enable_irq` for a hart enables source `8 * (irq / 4) + irq % 4` and no other:
  -- the one that is asked for only if its number is below 4. A context has 1024 sources.
  pub enables_source :
      (n : ℕ)
      → n < 1024
      → source_enabled (enable_irq_for r base hartid priority irq) base hartid priority n
        ≡ (n == irq / 4 * 8 + irq % 4)
  enables_source n known =
      ap (λ b. b / 2 ^ (n % 8) % 2 == 1) (enabled_byte (first + n / 8) (omega arith) (omega arith))
      ∙ elim (Bool-cases (n / 8 == irq / 4)) [
        | inl same ↦ ground (arith, bit_of (irq % 4) (n % 8) (omega arith) (omega arith))
        | inr differs ↦ ground arith
      ]
