-- ===== src/Memory/Paging/Walk.antt =====
-- `find_pte` and `translate` of src/memory/paging.rs as a walk by three indexes.
use ark_rust_kernel.Prelude.{
  ℕ, ◌-◌, ◌/◌, ◌%◌, ◌^◌, ◌<◌, ◌≡◌, ◌∙◌, ap, arith, [], ◌∷◌, Option, none, some, if◌then◌else◌,
  as_isize,
}
use mathlib.Core.Option
use ark_rust_kernel.Memory.Address.{VirtAddr, addr_of_page, page_of_addr, round_down, to_offset}
use ark_rust_kernel.Memory.Address.Rounding.{round_down-eq}
use ark_rust_kernel.Memory.Address.Indexes.{get_pte_indexes_lem}
use ark_rust_kernel.Memory.Entry.{entry_page_id, valid}
use ark_rust_kernel.Memory.Paging.{Cells, PageTable, Place, find_loop, find_pte, translate}
use ark_rust_kernel.Memory.Paging.Tree.{lookup}

-- The indexes of an address.
abbrev pub index_0 : VirtAddr → ℕ
index_0 va = va / 2 ^ 12 / 2 ^ 18 % 512

abbrev pub index_1 : VirtAddr → ℕ
index_1 va = va / 2 ^ 12 / 2 ^ 9 % 512

abbrev pub index_2 : VirtAddr → ℕ
index_2 va = va / 2 ^ 12 % 512

-- Where the walk ends: the entries of the first two levels have to be valid.
abbrev pub place_of : Cells → ℕ → ℕ → ℕ → ℕ → Option Place
place_of c root a b d =
    if valid (c root a)
    then (if valid (c (entry_page_id (c root a)) b)
        then some (entry_page_id (c (entry_page_id (c root a)) b), d)
        else none)
    else none

find_three :
    (c : Cells) (root a b d : ℕ) → find_loop c root 0 (a ∷ b ∷ d ∷ []) ≡ place_of c root a b d
unfolding find_loop
find_three c root a b d = ground arith

pub find_pte_lem :
    (c : Cells) (pt : PageTable) (va : VirtAddr)
    → find_pte c pt (page_of_addr va) ≡ place_of c pt.entries (index_0 va) (index_1 va) (index_2 va)
unfolding find_pte
find_pte_lem c pt va =
    ap (find_loop c pt.entries 0) (get_pte_indexes_lem (va / 4096))
    ∙ find_three c pt.entries (index_0 va) (index_1 va) (index_2 va)

offset_lem : (va : VirtAddr) → va < 2 ^ 64 → va - round_down va ≡ va % 4096
offset_lem va h = omega (arith, round_down-eq va h)

pub translate_lem :
    (c : Cells) (pt : PageTable) (va : VirtAddr)
    → va < 2 ^ 64
    → translate c pt va
      ≡ Option.map
          (λ e. to_offset (addr_of_page (entry_page_id e)) (as_isize (va % 4096)))
          (lookup c pt.entries (index_0 va) (index_1 va) (index_2 va))
unfolding translate
translate_lem c pt va h = ground (arith, find_pte_lem c pt va, offset_lem va h)
