-- ===== src/Memory/Address/Indexes.antt =====
-- The three page table indexes of a virtual page, src/memory/address.rs.
use ark_rust_kernel.Prelude.{ℕ, ◌/◌, ◌%◌, ◌^◌, ◌<◌, ◌≡◌, [], ◌∷◌, arith}
use ark_rust_kernel.Prelude.Bits.{bit_and-low}
use ark_rust_kernel.Memory.Address.{get_pte_indexes}

-- The indexes are the three groups of nine bits, the highest first.
pub get_pte_indexes_lem :
    (id : ℕ) → get_pte_indexes id ≡ id / 2 ^ 18 % 512 ∷ id / 2 ^ 9 % 512 ∷ id % 512 ∷ []
get_pte_indexes_lem id =
    ground (arith, bit_and-low 9 id, bit_and-low 9 (id / 512), bit_and-low 9 (id / 512 / 512))

-- Two pages of the 39-bit address space with the same indexes are the same page.
pub get_pte_indexes_injective :
    (a b : ℕ) → a < 2 ^ 27 → b < 2 ^ 27 → get_pte_indexes a ≡ get_pte_indexes b → a ≡ b
get_pte_indexes_injective a b h k e =
    ground (arith, e, get_pte_indexes_lem a, get_pte_indexes_lem b)
