-- ===== src/Memory/Entry.antt =====
-- `PTEFlags` and `PageTableEntry` of src/memory/paging.rs, and the vendor of src/cpu/vendor.rs,
-- which decides on extension bits. The sets of `bitflags!` are their bits.
pub mod Fields
use ark_rust_kernel.Prelude.{
  ℕ, ◌+◌, ◌-◌, ◌%◌, ◌^◌, Bool, true, false, bit_and, bit_or, leb, ◌==◌, if◌then◌else◌, shl_usize,
  shr_usize,
}
use ark_rust_kernel.Memory.PteFlag
use ark_rust_kernel.Memory.Address.{VirtAddr, PhyPageId}

-- `contains` of bitflags
abbrev pub contains_flag : ℕ → ℕ → Bool
contains_flag flags other = bit_and flags other == other

unfoldable pub entry_new : PhyPageId → ℕ → ℕ
entry_new page_id flags = bit_or (shl_usize page_id 10) flags

unfoldable pub entry_page_id : ℕ → PhyPageId
entry_page_id e = bit_and (shr_usize e 10) (2 ^ 44 - 1)

-- All eight bits are flags, so `from_bits` succeeds.
abbrev pub entry_flags : ℕ → ℕ
entry_flags e = e % 2 ^ 8

unfoldable pub valid : ℕ → Bool
valid e = contains_flag (entry_flags e) PteFlag.v

unfoldable pub readable : ℕ → Bool
readable e = contains_flag (entry_flags e) PteFlag.r

unfoldable pub writable : ℕ → Bool
writable e = contains_flag (entry_flags e) PteFlag.w

unfoldable pub executable : ℕ → Bool
executable e = contains_flag (entry_flags e) PteFlag.x

unfoldable pub prepare_flags : ℕ → ℕ
prepare_flags flags =
    let f = if contains_flag flags PteFlag.r then bit_or flags PteFlag.a else flags in
    let f' = if contains_flag f PteFlag.w then bit_or f PteFlag.d else f in bit_or f' PteFlag.v

pub data VendorId : Type 0 where
  unknown : ℕ → VendorId
  andes si_five t_head : VendorId

-- `VendorId::from`
abbrev pub vendor_of : ℕ → VendorId
vendor_of value =
    if value == 0x31e
    then andes
    else if value == 0x489
    then si_five
    else if value == 0x5b7
    then t_head
    else unknown value

abbrev pub hardware_base_addr : ℕ
hardware_base_addr = 0xD000_0000

-- What `set_pte` writes, with the extension bits of a C906.
unfoldable pub extend_bits : VendorId → VirtAddr → ℕ
extend_bits t_head va = if leb hardware_base_addr va then 2 ^ 63 else bit_or (2 ^ 62) (2 ^ 61)
extend_bits _ va = 0

unfoldable pub leaf_entry : VendorId → VirtAddr → PhyPageId → ℕ → ℕ
unfolding extend_bits
leaf_entry vendor va page_id flags =
    bit_or (entry_new page_id (prepare_flags flags)) (extend_bits vendor va)
