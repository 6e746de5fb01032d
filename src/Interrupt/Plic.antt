-- ===== src/Interrupt/Plic.antt =====
-- The registers of the interrupt controller, src/interrupt/plic.rs: bytes by their address, read
-- and written four at a time, at any address.
pub mod Enable
use ark_rust_kernel.Prelude.{
  ℕ, zero, suc, ◌+◌, ◌-◌, ◌*◌, ◌/◌, ◌%◌, ◌^◌, bit_and, bit_or, ◌==◌, if◌then◌else◌, as_isize,
  mul_usize, add_usize,
}
use ark_rust_kernel.Memory.Address.{VirtAddr, to_offset}

abbrev pub int_prio_offset : ℕ
int_prio_offset = 0

abbrev pub int_enbits_offset : ℕ
int_enbits_offset = 0x2000

abbrev pub int_enbits_context_size : ℕ
int_enbits_context_size = 0x80

-- `size_of::<u32>()`
abbrev pub int_enbits_size : ℕ
int_enbits_size = 4

abbrev pub misc_context_offset : ℕ
misc_context_offset = 0x20_0000

abbrev pub misc_context_size : ℕ
misc_context_size = 0x1000

abbrev pub misc_prio_threshold : ℕ
misc_prio_threshold = 0

abbrev pub misc_claim_complete : ℕ
misc_claim_complete = 4

pub data PlicPriority : Type 0 where
  machine supervisor max_priority : PlicPriority

-- `priority as usize`
abbrev pub priority_number : PlicPriority → ℕ
priority_number machine = 0
priority_number supervisor = 1
priority_number max_priority = 2

abbrev pub Registers : Type 0
Registers = ℕ → ℕ

abbrev pub read : Registers → VirtAddr → ℕ → ℕ
read r base offset =
    let a = to_offset base (as_isize offset) in
    r a + 2 ^ 8 * r (a + 1) + 2 ^ 16 * r (a + 2) + 2 ^ 24 * r (a + 3)

abbrev pub write : Registers → VirtAddr → ℕ → ℕ → Registers
write r base offset value x =
    let a = to_offset base (as_isize offset) in
    if x == a
    then value % 2 ^ 8
    else if x == a + 1
    then value / 2 ^ 8 % 2 ^ 8
    else if x == a + 2
    then value / 2 ^ 16 % 2 ^ 8
    else if x == a + 3
    then value / 2 ^ 24 % 2 ^ 8
    else r x

abbrev pub get_context_id : ℕ → PlicPriority → ℕ
get_context_id hartid priority = hartid * priority_number max_priority + priority_number priority

abbrev pub get_misc_offset_for_hart : ℕ → PlicPriority → ℕ
get_misc_offset_for_hart hartid priority =
    misc_context_offset + misc_context_size * get_context_id hartid priority

abbrev pub get_int_enable_offset_for_hart : ℕ → PlicPriority → ℕ
get_int_enable_offset_for_hart hartid priority =
    int_enbits_offset + int_enbits_context_size * get_context_id hartid priority

abbrev pub get_int_enable_offset_for_hart_and_irq : ℕ → PlicPriority → ℕ → ℕ
get_int_enable_offset_for_hart_and_irq hartid priority irq =
    get_int_enable_offset_for_hart hartid priority + irq / int_enbits_size

abbrev pub write_misc : Registers → VirtAddr → ℕ → PlicPriority → ℕ → ℕ → Registers
write_misc r base hartid priority offset value =
    write r base (get_misc_offset_for_hart hartid priority + offset) value

abbrev pub read_misc : Registers → VirtAddr → ℕ → PlicPriority → ℕ → ℕ
read_misc r base hartid priority offset =
    read r base (get_misc_offset_for_hart hartid priority + offset)

abbrev pub set_irq_priority : Registers → VirtAddr → ℕ → PlicPriority → Registers
set_irq_priority r base irq priority =
    write r base (int_prio_offset + irq * 4) (priority_number priority)

-- `enable_irq` and `disable_irq` of `PLIC`, for one hart
unfoldable pub enable_irq_for : Registers → VirtAddr → ℕ → PlicPriority → ℕ → Registers
enable_irq_for r base hartid priority irq =
    let offset = get_int_enable_offset_for_hart_and_irq hartid priority irq in
    write r base offset (bit_or (read r base offset) (2 ^ (irq % int_enbits_size)))

unfoldable pub disable_irq_for : Registers → VirtAddr → ℕ → PlicPriority → ℕ → Registers
disable_irq_for r base hartid priority irq =
    let offset = get_int_enable_offset_for_hart_and_irq hartid priority irq in
    write r base offset (bit_and (read r base offset) (2 ^ 32 - 1 - 2 ^ (irq % int_enbits_size)))

-- The loops over all harts, from `hartid` on, with `n` left.
abbrev pub threshold_loop : Registers → VirtAddr → ℕ → ℕ → Registers
threshold_loop r base zero hartid = r
threshold_loop r base (suc n) hartid =
    threshold_loop (write_misc r base hartid supervisor misc_prio_threshold 0) base n (hartid + 1)

abbrev pub enable_loop : Registers → VirtAddr → ℕ → ℕ → ℕ → Registers
enable_loop r base irq zero hartid = r
enable_loop r base irq (suc n) hartid =
    enable_loop (enable_irq_for r base hartid supervisor irq) base irq n (hartid + 1)

abbrev pub disable_loop : Registers → VirtAddr → ℕ → ℕ → ℕ → Registers
disable_loop r base irq zero hartid = r
disable_loop r base irq (suc n) hartid =
    disable_loop (disable_irq_for r base hartid supervisor irq) base irq n (hartid + 1)

abbrev pub init : Registers → VirtAddr → ℕ → Registers
init r base count = threshold_loop r base count 0

abbrev pub claim : Registers → VirtAddr → ℕ → ℕ
claim r base hartid = read_misc r base hartid supervisor misc_claim_complete

abbrev pub complete : Registers → VirtAddr → ℕ → ℕ → Registers
complete r base hartid irq = write_misc r base hartid supervisor misc_claim_complete (irq % 2 ^ 32)

abbrev pub enable_irq : Registers → VirtAddr → ℕ → ℕ → Registers
enable_irq r base count irq = enable_loop (set_irq_priority r base irq supervisor) base irq count 0

abbrev pub disable_irq : Registers → VirtAddr → ℕ → ℕ → Registers
disable_irq r base count irq = set_irq_priority (disable_loop r base irq count 0) base irq machine
