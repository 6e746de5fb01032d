-- ===== src/Memory/Paging.antt =====
-- `PageTable` of src/memory/paging.rs: the three-level tables of Sv39 in physical memory. A place
-- in a table, a page and an index, stands for the `&mut PageTableEntry` of the source.
pub mod Tree
pub mod Walk
pub mod Create
pub mod Extend
pub mod Leaf
pub mod Map
pub mod Translate
pub mod Unmap
pub mod Total
pub mod Enough
pub mod Big
pub mod Fresh
mod Tests
use ark_rust_kernel.Prelude.{
  ℕ, zero, suc, ◌+◌, ◌-◌, ◌/◌, ◌^◌, List, [], ◌∷◌, Option, none, some, Bool, true, false, ltb, ◌==◌,
  not, if◌then◌else◌, Outcome, done, panic, unwrap, assert, ◌>>=◌, ◌>>◌, bit_or, shr_usize,
  shl_usize, mul_usize, as_isize,
}
use ark_rust_kernel.Memory.Address.{
  PhyAddr, VirtAddr, PhyPageId, VirtPageId, page_size, addr_of_page, page_of_addr, page_add,
  round_down, to_offset, get_pte_indexes,
}
use ark_rust_kernel.Memory.Frames.{FrameAllocator, Machine, write_cell, phy_page_alloc}
use ark_rust_kernel.Memory.PteFlag
use ark_rust_kernel.Memory.Entry.{VendorId, entry_new, entry_page_id, valid, leaf_entry}

-- `entries` is the root table; `pages` are all tables, which live as long as the page table.
pub record PageTable : Type 0 where
  pub entries : PhyPageId
  pub pages : List PhyPageId

-- The place of an entry: the table's page, and the index in it.
abbrev pub Place : Type 0
Place = PhyPageId × ℕ

abbrev pub Cells : Type 0
Cells = ℕ → ℕ → ℕ

-- The loop of `find_pte` at level `i`, over the indexes that are left.
unfoldable pub find_loop : Cells → PhyPageId → ℕ → List ℕ → Option Place
find_loop c ppn i [] = none
find_loop c ppn i (idx ∷ rest) =
    let deeper = find_loop c (entry_page_id (c ppn idx)) (i + 1) rest in
    if i == 2 then some (ppn, idx) else if not (valid (c ppn idx)) then none else deeper

unfoldable pub find_pte : Cells → PageTable → VirtPageId → Option Place
unfolding find_loop
find_pte c pt vpn = find_loop c pt.entries 0 (get_pte_indexes vpn)

-- `to_satp`
abbrev pub to_satp : PageTable → ℕ
to_satp pt = bit_or pt.entries (shl_usize 8 60)

unfoldable pub translate : Cells → PageTable → VirtAddr → Option PhyAddr
translate c pt va = elim (find_pte c pt (page_of_addr va)) [
  | some (ppn, idx) ↦
      if valid (c ppn idx)
      then some
          (to_offset (addr_of_page (entry_page_id (c ppn idx))) (as_isize (va - round_down va)))
      else none
  | none ↦ none
]

-- `set_pte`, at a place
unfoldable pub set_pte : VendorId → Cells → Place → PhyAddr → VirtAddr → ℕ → Outcome Cells
set_pte vendor c (ppn, idx) pa va flags = do
  assert (not (valid (c ppn idx)))
  done (write_cell c ppn idx (leaf_entry vendor va (page_of_addr pa) flags))

-- `unmap`
unfoldable pub unmap : Cells → PageTable → VirtAddr → Outcome Cells
unmap c pt va = do
  (ppn, idx) ← unwrap (find_pte c pt (page_of_addr va))
  assert (valid (c ppn idx))
  done (write_cell c ppn idx 0)

-- The loop of `unmap_many`, with `n` pages left, from page `pg`.
unfoldable pub unmap_many_loop : Cells → PageTable → VirtAddr → ℕ → ℕ → Outcome Cells
unmap_many_loop c pt va zero pg = done c
unmap_many_loop c pt va (suc n) pg = do
  c' ← unmap c pt (addr_of_page (page_add (page_of_addr va) pg))
  unmap_many_loop c' pt va n (pg + 1)

unfoldable pub unmap_many : Cells → PageTable → VirtAddr → ℕ → Outcome Cells
unmap_many c pt va pages = unmap_many_loop c pt va pages 0

-- The memory and the page table after an operation that may add tables.
pub record Grown (S : Type 0) : Type 0 where
  pub machine : Machine S
  pub table : PageTable

module _ (fa : FrameAllocator) where
  open fa use {State}

  -- `PageTable::new`
  unfoldable pub new : Machine State → Outcome (Grown State)
  new m = do
    (page, m') ← phy_page_alloc fa m
    done (record { machine = m'; table = record { entries = page; pages = page ∷ [] } })

  -- The part of the loop of `find_pte_create` that makes an entry lead to a table. The head of
  -- `pages` is the end of the `Vec`.
  unfoldable pub ensure : Grown State → PhyPageId → ℕ → Outcome (Grown State)
  ensure g ppn idx =
      let grown = do
        (page, m) ← phy_page_alloc fa g.machine
        done (record {
          machine = record m { cells = write_cell m.cells ppn idx (entry_new page PteFlag.v) };
          table = record (g.table) { pages = page ∷ g.table.pages };
        })
      in if not (valid (g.machine.cells ppn idx)) then grown else done g

  unfoldable pub create_loop :
      Grown State → PhyPageId → ℕ → List ℕ → Outcome (Option Place × Grown State)
  create_loop g ppn i [] = done (none, g)
  create_loop g ppn i (idx ∷ rest) =
      let deeper = do
        g' ← ensure g ppn idx
        create_loop g' (entry_page_id (g'.machine.cells ppn idx)) (i + 1) rest
      in if i == 2 then done (some (ppn, idx), g) else deeper

  unfoldable pub find_pte_create : Grown State → VirtPageId → Outcome (Option Place × Grown State)
  unfolding create_loop
  find_pte_create g vpn = create_loop g g.table.entries 0 (get_pte_indexes vpn)

module _ (fa : FrameAllocator) (vendor : VendorId) where
  open fa use {State}

  unfoldable pub map : Grown State → VirtAddr → PhyAddr → ℕ → Outcome (Grown State)
  map g va pa flags = do
    (found, g') ← find_pte_create fa g (page_of_addr va)
    place ← unwrap found
    c ← set_pte vendor g'.machine.cells place pa va flags
    done (record g' { machine = record (g'.machine) { cells = c } })

  -- `map_big`: a root entry that maps a gigabyte.
  unfoldable pub map_big : Grown State → VirtAddr → PhyAddr → ℕ → Outcome (Grown State)
  map_big g va pa flags = do
    assert (ltb (shr_usize va 30) 512)
    c ← set_pte vendor g.machine.cells (g.table.entries, shr_usize va 30) pa va flags
    done (record g { machine = record (g.machine) { cells = c } })

  -- The loop of `map_many`, with `n` pages left, from page `pg`.
  unfoldable pub map_many_loop :
      Grown State → VirtAddr → PhyAddr → ℕ → ℕ → ℕ → Outcome (Grown State)
  map_many_loop g va pa flags zero pg = done g
  map_many_loop g va pa flags (suc n) pg = do
    g' ←
        map g (to_offset va (as_isize (mul_usize page_size pg)))
          (to_offset pa (as_isize (mul_usize page_size pg))) flags
    map_many_loop g' va pa flags n (pg + 1)

  unfoldable pub map_many : Grown State → VirtAddr → PhyAddr → ℕ → ℕ → Outcome (Grown State)
  map_many g va pa size flags = map_many_loop g va pa flags (size / page_size) 0
