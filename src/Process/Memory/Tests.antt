-- ===== src/Process/Memory/Tests.antt =====
-- The theorems on src/process/process_memory.rs at a concrete process.
use ark_rust_kernel.Prelude.{
  ◌≤◌, none, ℕ, ◌≡◌, refl, arith, false, [], ◌∷◌, some, Outcome, done, panic,
}
use ark_rust_kernel.Prelude.Maps.{insert, get, contains_key}
use ark_rust_kernel.Memory.Address.{round_up, round_up_to}
use ark_rust_kernel.Memory.Frames.{bump, bump_alloc, Machine, phy_page_alloc}
use ark_rust_kernel.Memory.Entry.{unknown, valid, entry_new, entry_page_id}
use ark_rust_kernel.Memory.Paging
use ark_rust_kernel.Process.Memory.{ProcessMemory, World, new, kernel_table, map, set_brk}
use ark_rust_kernel.Process.Memory.Coherent.{IsCoherent, map_refines}
use ark_rust_kernel.Process.Memory.Fresh.{new_refines}
use ark_rust_kernel.Process.Memory.Brk.{Reaches}
use ark_rust_kernel.Memory.Paging.Enough.{HasFrames, enough, one_more}
use ark_rust_kernel.Process.Memory.SetBrk.{set_brk_grows, set_brk_odd_panics}
use ark_rust_kernel.Process.Memory.Mmap.{first_page, check_collapse, find_gap}
use ark_rust_kernel.Process.Memory.Mmap.Gap.{first_page_free}

abbrev bare : Machine ℕ
bare = record { cells = λ p i. 0; frames = 5 }

-- What a state that was reached is, and a default where it was not.
abbrev world_or : World ℕ → Outcome (World ℕ) → World ℕ
world_or d (done w) = w
world_or d panic = d

abbrev empty : World ℕ
empty = record {
  machine = bare;
  memory = record {
    page_table = record { entries = 0; pages = [] };
    maps = [];
    prog_end = 0;
    min_brk = 0;
    brk = 0;
    stack_base = 0;
    stack_top = 0;
    mmap_base = 0;
  };
}

fresh : World ℕ
fresh = world_or empty (new bump (unknown 0) bare)

is_fresh : new bump (unknown 0) bare ≡ done fresh
unfolding fresh new kernel_table Paging.new Paging.map_big Paging.set_pte valid phy_page_alloc
    bump_alloc
is_fresh = refl

new_refines_example : IsCoherent bump fresh × (fresh.memory.maps ≡ [])
new_refines_example = new_refines bump (unknown 0) bare fresh is_fresh

fresh-IsCoherent : IsCoherent bump fresh
fresh-IsCoherent = (new_refines bump (unknown 0) bare fresh is_fresh).0

loaded : World ℕ
loaded = world_or empty (map bump (unknown 0) fresh 16 100 22)

is_loaded : map bump (unknown 0) fresh 16 100 22 ≡ done loaded
unfolding loaded fresh map new kernel_table Paging.new Paging.map_big Paging.set_pte valid
    phy_page_alloc bump_alloc Paging.map Paging.find_pte_create Paging.create_loop Paging.ensure
    entry_new entry_page_id
is_loaded = refl

map_refines_example :
    IsCoherent bump loaded
    × (loaded.memory.maps ≡ insert fresh.memory.maps 16 (record { page = 100; flags = 22 }))
map_refines_example =
    map_refines bump (unknown 0) fresh 16 100 22 (omega arith) (omega arith) (omega arith)
      fresh-IsCoherent loaded is_loaded

loaded-IsCoherent : IsCoherent bump loaded
loaded-IsCoherent =
    (map_refines bump (unknown 0) fresh 16 100 22 (omega arith) (omega arith) (omega arith)
      fresh-IsCoherent loaded is_loaded).0

has_page : get loaded.memory.maps 16 ≡ some (record { page = 100; flags = 22 })
unfolding loaded fresh map new kernel_table Paging.new Paging.map_big Paging.set_pte valid
    phy_page_alloc bump_alloc Paging.map Paging.find_pte_create Paging.create_loop Paging.ensure
    entry_new entry_page_id
has_page = refl

-- The same with a break.
abbrev with_brk : World ℕ → ℕ → World ℕ
with_brk w b = record w { memory = record (w.memory) { brk = b } }

with_brk-IsCoherent : (w : World ℕ) (b : ℕ) → IsCoherent bump w → IsCoherent bump (with_brk w b)
with_brk-IsCoherent w b co = record { owner = co.owner; tree = co.tree; agrees = co.agrees }

min_brk_zero : loaded.memory.min_brk ≡ 0
unfolding loaded fresh map new kernel_table Paging.new Paging.map_big Paging.set_pte valid
    phy_page_alloc bump_alloc Paging.map Paging.find_pte_create Paging.create_loop Paging.ensure
    entry_new entry_page_id
min_brk_zero = refl

only_page : (q : ℕ) → 17 ≤ q → get loaded.memory.maps q ≡ none
unfolding loaded fresh map new kernel_table Paging.new Paging.map_big Paging.set_pte valid
    phy_page_alloc bump_alloc Paging.map Paging.find_pte_create Paging.create_loop Paging.ensure
    entry_new entry_page_id
only_page q h = ground arith

six_frames : HasFrames bump 6 loaded.machine.frames
unfolding loaded fresh map new kernel_table Paging.new Paging.map_big Paging.set_pte valid
    phy_page_alloc bump_alloc Paging.map Paging.find_pte_create Paging.create_loop Paging.ensure
    entry_new entry_page_id
six_frames =
    one_more refl
      (one_more refl (one_more refl (one_more refl (one_more refl (one_more refl enough)))))

set_brk_grows_example :
    (w' : World ℕ) × (set_brk bump (unknown 0) (with_brk loaded 0x11000) 0x12001
      ≡ done (0x12001, w'))
    × (w'.memory.brk ≡ 0x12001)
    × IsCoherent bump w'
    × Reaches loaded.memory.maps w'.memory.maps 0x11000 0x12001
set_brk_grows_example =
    set_brk_grows bump (unknown 0) (with_brk loaded 0x11000) 0x12001 (omega arith) (omega arith)
      (omega (arith, min_brk_zero)) (with_brk-IsCoherent loaded 0x11000 loaded-IsCoherent)
      (omega arith) (omega arith) (λ q low high. only_page q (omega arith)) six_frames

set_brk_odd_panics_example : set_brk bump (unknown 0) (with_brk loaded 0x10001) 0x10002 ≡ panic
set_brk_odd_panics_example =
    set_brk_odd_panics bump (unknown 0) (with_brk loaded 0x10001) 0x10002
      (with_brk-IsCoherent loaded 0x10001 loaded-IsCoherent) refl (λ e. ground (arith, has_page))
      (omega arith) (omega arith) (omega (arith, min_brk_zero))

-- A stack page, and a page at the end of the area where `mmap` looks.
abbrev layout : ProcessMemory
layout = record (empty.memory) {
  maps =
      (16, record { page = 100; flags = 22 }) ∷ (0x5ffff, record { page = 101; flags = 22 }) ∷ [];
  brk = 0x11000;
  mmap_base = 0x6000_0000;
}

layout_first : first_page layout 3 ≡ some 0x5fffc
unfolding first_page find_gap check_collapse round_up round_up_to
layout_first = refl

first_page_free_example : contains_key layout.maps 0x5fffd ≡ false
first_page_free_example =
    first_page_free layout 3 0x5fffc 0x5fffd refl (omega arith) (omega arith) layout_first
      (omega arith) (omega arith) (omega arith)
