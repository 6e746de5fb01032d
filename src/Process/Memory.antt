-- ===== src/Process/Memory.antt =====
-- `ProcessMemory` of src/process/process_memory.rs: the user pages of a process, in a map and in
-- its page table. The machine is passed along, since pages are allocated, copied and dropped.
pub mod Mmap
pub mod Coherent
pub mod Fresh
pub mod Brk
pub mod Growing
pub mod SetBrk
mod Tests
use ark_rust_kernel.Prelude.{
  ℕ, zero, suc, ◌+◌, ◌-◌, ◌/◌, List, [], ◌∷◌, Option, none, some, Bool, true, false, ◌&&◌, not, ltb,
  leb, ◌==◌, if◌then◌else◌, String, Result, ok, err, Outcome, done, panic, unwrap, ◌>>=◌, ◌>>◌, ℤ,
  pos, negsuc, as_isize, sub_usize, add_usize,
}
use ark_rust_kernel.Prelude.Maps.{Map, insert, get, remove, contains_key}
use ark_rust_kernel.Memory.Address.{
  PhyAddr, VirtAddr, VirtPageId, page_size, addr_of_page, page_of_addr, page_sub, round_up,
  to_offset,
}
use ark_rust_kernel.Memory.Frames.{FrameAllocator, Machine, phy_page_alloc, phy_page_drop}
use ark_rust_kernel.Memory.Entry.{VendorId}
use ark_rust_kernel.Memory.Paging
use ark_rust_kernel.Memory.Paging.{PageTable, Grown, translate}

abbrev pub kernel_space_base : ℕ
kernel_space_base = 0x8000_0000

abbrev pub process_user_stack_base : ℕ
process_user_stack_base = kernel_space_base

abbrev pub process_max_user_stack_size : ℕ
process_max_user_stack_size = 0x2000_0000

abbrev pub process_mmap_base : ℕ
process_mmap_base = process_user_stack_base - process_max_user_stack_size

-- The flags R, W, X and G of the kernel's gigabyte, and U, W and R of a user page.
abbrev pub kernel_flags : ℕ
kernel_flags = 46

abbrev pub user_flags : ℕ
user_flags = 22

pub record UserPage : Type 0 where
  pub page : ℕ
  pub flags : ℕ

pub record ProcessMemory : Type 0 where
  pub page_table : PageTable
  pub maps : Map UserPage
  pub prog_end : VirtAddr
  pub min_brk : VirtAddr
  pub brk : VirtAddr
  pub stack_base : VirtAddr
  pub stack_top : VirtAddr
  pub mmap_base : VirtAddr

pub record World (S : Type 0) : Type 0 where
  pub machine : Machine S
  pub memory : ProcessMemory

-- The part that the page table's operations work on.
abbrev pub grown : {S : Type 0} → World S → Grown S
grown w = record { machine = w.machine; table = w.memory.page_table }

abbrev pub with_grown : {S : Type 0} → World S → Grown S → World S
with_grown w g = record { machine = g.machine; memory = record (w.memory) { page_table = g.table } }

abbrev pub is_mapped : {S : Type 0} → World S → VirtPageId → Bool
is_mapped w vpn = contains_key w.memory.maps vpn

-- `get_mapped_last_page`: the last page below the stack
abbrev pub last_below : VirtPageId → Map UserPage → Option ℕ
last_below first_stack_vpn [] = none
last_below first_stack_vpn ((vpn, _) ∷ rest) = elim (last_below first_stack_vpn rest) [
  | some v ↦ some (if leb first_stack_vpn vpn then v else if ltb v vpn then vpn else v)
  | none ↦ if leb first_stack_vpn vpn then none else some vpn
]

abbrev pub get_mapped_last_page : ProcessMemory → VirtPageId
get_mapped_last_page p = elim (last_below (page_of_addr p.stack_top) p.maps) [
  | some v ↦ v
  | none ↦ 0
]

module _ (fa : FrameAllocator) where
  open fa use {State}

  -- Drops of the pages of a map, and of the tables of a page table.
  abbrev pub drop_user_pages : Machine State → Map UserPage → Machine State
  drop_user_pages m [] = m
  drop_user_pages m ((_, u) ∷ rest) = drop_user_pages (phy_page_drop fa m u.page) rest

  abbrev pub drop_tables : Machine State → List ℕ → Machine State
  drop_tables m [] = m
  drop_tables m (p ∷ rest) = drop_tables (phy_page_drop fa m p) rest

  unfoldable pub unmap : World State → VirtPageId → Outcome (Result String (Unit {0}) × World State)
  unmap w vpn = elim (get w.memory.maps vpn) [
    | some u ↦ do
      c ← Paging.unmap w.machine.cells w.memory.page_table (addr_of_page vpn)
      done (
        ok tt,
        record {
          machine = phy_page_drop fa (record (w.machine) { cells = c }) u.page;
          memory = record (w.memory) { maps = remove w.memory.maps vpn };
        },
      )
    | none ↦ done (err "page is not mapped.", w)
  ]

-- `real_brk` at the start of `set_brk`
abbrev pub real_brk_of : VirtAddr → VirtAddr
real_brk_of brk = round_up (to_offset brk (negsuc 0))

module _ (fa : FrameAllocator) (vendor : VendorId) where
  open fa use {State}

  -- A new page table with the kernel's gigabyte.
  unfoldable pub kernel_table : Machine State → Outcome (Grown State)
  kernel_table m = do
    g ← Paging.new fa m
    Paging.map_big fa vendor g kernel_space_base kernel_space_base kernel_flags

  unfoldable pub new : Machine State → Outcome (World State)
  new m = do
    g ← kernel_table m
    done (record {
      machine = g.machine;
      memory = record {
        page_table = g.table;
        maps = [];
        prog_end = 0;
        min_brk = 0;
        brk = 0;
        stack_base = process_user_stack_base;
        stack_top = process_user_stack_base;
        mmap_base = process_mmap_base;
      };
    })

  -- `map`: a page that the map held at `vpn` before would be dropped.
  unfoldable pub map : World State → VirtPageId → ℕ → ℕ → Outcome (World State)
  map w vpn page flags = do
    g ← Paging.map fa vendor (grown w) (addr_of_page vpn) (addr_of_page page) flags
    done (record {
      machine = elim (get w.memory.maps vpn) [
        | some old ↦ phy_page_drop fa g.machine old.page
        | none ↦ g.machine
      ];
      memory = record (w.memory) {
        page_table = g.table;
        maps = insert w.memory.maps vpn (record { page = page; flags = flags });
      };
    })

  -- `PhyPage::alloc` and `map` of that page
  unfoldable pub map_new : World State → VirtPageId → ℕ → Outcome (World State)
  map_new w vpn flags = do
    (page, m) ← phy_page_alloc fa w.machine
    map (record w { machine = m }) vpn page flags

  -- The loop of `set_brk`, with fuel for its rounds.
  unfoldable pub brk_loop : ℕ → World State → VirtAddr → VirtAddr → Outcome (World State)
  brk_loop zero w real_brk new_brk = done w
  brk_loop (suc fuel) w real_brk new_brk =
      let round = do
        w' ← map_new w (page_of_addr (to_offset real_brk (pos 1))) user_flags
        brk_loop fuel w' (to_offset real_brk (pos page_size)) new_brk
      in if ltb real_brk new_brk then round else done w

  -- `set_brk`; the pages up to `new_brk` are fuel enough. A smaller break is a `todo!`.
  unfoldable pub set_brk : World State → VirtAddr → Outcome (ℕ × World State)
  set_brk w new_brk =
      let grow = do
        w' ← brk_loop (suc (new_brk / page_size)) w (real_brk_of w.memory.brk) new_brk
        done (new_brk, record w' { memory = record (w'.memory) { brk = new_brk } })
      in let moved : Outcome (ℕ × World State) = elim (as_isize (sub_usize new_brk w.memory.brk)) [
        | pos zero ↦ done (new_brk, record w { memory = record (w.memory) { brk = new_brk } })
        | pos (suc _) ↦ grow
        | negsuc _ ↦ panic
      ] in
        if ltb new_brk w.memory.min_brk then done (w.memory.brk, w) else moved

  unfoldable pub increase_user_stack : World State → Outcome (World State)
  increase_user_stack w = do
    w' ← map_new w (page_sub (page_of_addr w.memory.stack_top) 1) user_flags
    done (record w' {
      memory = record (w'.memory) {
        stack_top = addr_of_page (page_sub (page_of_addr w.memory.stack_top) 1);
      };
    })

  unfoldable pub alloc_stack_if_possible : World State → VirtAddr → Outcome (Bool × World State)
  alloc_stack_if_possible w va =
      let grow = do w' ← increase_user_stack w; done (true, w')
      in if (page_of_addr va == page_of_addr (to_offset w.memory.stack_top (negsuc 0)))
          && not (is_mapped w (page_of_addr va))
        then grow
        else done (false, w)

  -- The second half of `translate_with_stack_alloc`
  unfoldable pub translate_grown :
      World State → VirtAddr → Bool → Outcome (Option PhyAddr × World State)
  translate_grown w va true = do
    pa ← unwrap (translate w.machine.cells w.memory.page_table va)
    done (some pa, w)
  translate_grown w va false = done (none, w)

  unfoldable pub translate_with_stack_alloc :
      World State → VirtAddr → Outcome (Option PhyAddr × World State)
  translate_with_stack_alloc w va = elim (translate w.machine.cells w.memory.page_table va) [
    | some pa ↦ done (some pa, w)
    | none ↦ do (grew, w') ← alloc_stack_if_possible w va; translate_grown w' va grew
  ]

  -- `reset`: the user pages and the old tables are dropped once the new table is made.
  unfoldable pub reset : World State → Outcome (World State)
  reset w = do
    g ← kernel_table w.machine
    done (record {
      machine =
          drop_tables fa (drop_user_pages fa g.machine w.memory.maps) w.memory.page_table.pages;
      memory = record (w.memory) {
        page_table = g.table;
        maps = [];
        prog_end = 0;
        brk = 0;
        stack_base = process_user_stack_base;
        stack_top = process_user_stack_base;
        mmap_base = process_mmap_base;
      };
    })
