-- ===== src/Memory/Address.antt =====
-- `PhyAddr`, `VirtAddr`, `PhyPageId` and `VirtPageId` of src/memory/address.rs, each the `usize`
-- that it wraps. What the source writes twice, for physical and for virtual, is one function here.
pub mod Rounding
pub mod Indexes
use ark_rust_kernel.Prelude.{
  ℕ, zero, suc, ◌+◌, ◌-◌, ◌/◌, ◌^◌, List, [], ◌∷◌, ◌++◌, Bool, bit_and, ltb, ◌==◌, if◌then◌else◌,
  add_usize, sub_usize, mul_usize, not_usize, shr_usize, ℤ, is_negative, unsigned_abs,
}

abbrev pub PhyAddr : Type 0
PhyAddr = ℕ

abbrev pub VirtAddr : Type 0
VirtAddr = ℕ

abbrev pub PhyPageId : Type 0
PhyPageId = ℕ

abbrev pub VirtPageId : Type 0
VirtPageId = ℕ

abbrev pub page_size : ℕ
page_size = 4096

-- `PhyAddr::from(PhyPageId)`, `VirtAddr::from(VirtPageId)`
abbrev pub addr_of_page : ℕ → ℕ
addr_of_page id = mul_usize id page_size

-- `PhyPageId::from(PhyAddr)`, `VirtPageId::from(VirtAddr)`
abbrev pub page_of_addr : ℕ → ℕ
page_of_addr addr = addr / page_size

-- `+` and `-` of a page id: the difference stops at 0.
abbrev pub page_add : ℕ → ℕ → ℕ
page_add id rhs = add_usize id rhs

abbrev pub page_sub : ℕ → ℕ → ℕ
page_sub id rhs = if ltb id rhs then 0 else id - rhs

-- The trait `Addr`.
abbrev pub is_null : ℕ → Bool
is_null addr = addr == 0

unfoldable pub round_up_to : ℕ → ℕ → ℕ
round_up_to addr to = bit_and (add_usize addr (sub_usize to 1)) (not_usize (sub_usize to 1))

unfoldable pub round_down_to : ℕ → ℕ → ℕ
round_down_to addr to = bit_and addr (not_usize (sub_usize to 1))

unfoldable pub round_up : ℕ → ℕ
round_up addr = round_up_to addr page_size

unfoldable pub round_down : ℕ → ℕ
round_down addr = round_down_to addr page_size

abbrev pub to_offset : ℕ → ℤ → ℕ
to_offset addr offset =
    if is_negative offset
    then (if ltb addr (unsigned_abs offset) then 0 else addr - unsigned_abs offset)
    else add_usize addr (unsigned_abs offset)

-- The loop of `get_pte_indexes`: `n` entries are left to fill, the last one first.
abbrev pub index_loop : ℕ → ℕ → List ℕ
index_loop zero vpn = []
index_loop (suc n) vpn = index_loop n (shr_usize vpn 9) ++ (bit_and vpn 511 ∷ [])

abbrev pub get_pte_indexes : VirtPageId → List ℕ
get_pte_indexes id = index_loop 3 id
