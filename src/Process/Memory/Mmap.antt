-- ===== src/Process/Memory/Mmap.antt =====
-- `copy_from`, `check_collapse` and `mmap` of src/process/process_memory.rs.
pub mod Gap
use ark_rust_kernel.Prelude.{
  ℕ, zero, suc, ◌+◌, ◌-◌, [], ◌∷◌, Option, none, some, Bool, true, false, ◌&&◌, ◌||◌, not, leb,
  ◌==◌, if◌then◌else◌, String, Result, ok, err, Outcome, done, panic, unwrap_ok, ◌>>=◌, negsuc,
  add_usize, sub_usize,
}
use ark_rust_kernel.Prelude.Maps.{Map, contains_key}
use ark_rust_kernel.Memory.Address.{
  VirtAddr, VirtPageId, addr_of_page, page_of_addr, page_add, page_sub, to_offset, round_up,
}
use ark_rust_kernel.Memory.Frames.{FrameAllocator, phy_page_alloc}
use ark_rust_kernel.Memory.Entry.{VendorId}
use ark_rust_kernel.Process.Memory.{UserPage, ProcessMemory, World, unmap, map, map_new, is_mapped}

-- Whether one of the `n` pages from `first` is in the map.
abbrev pub any_mapped : Map UserPage → VirtPageId → ℕ → Bool
any_mapped maps first zero = false
any_mapped maps first (suc n) = contains_key maps first || any_mapped maps (first + 1) n

-- A range `lo..hi` of the source has `hi - lo` members, and none if `hi` is not above `lo`.
abbrev pub range_mapped : Map UserPage → ℕ → ℕ → Bool
range_mapped maps lo hi = any_mapped maps lo (hi - lo)

unfoldable pub check_collapse : Map UserPage → VirtPageId → ℕ → Bool → Bool
check_collapse maps start_vpn pages is_increasing =
    if is_increasing
    then range_mapped maps start_vpn (add_usize start_vpn pages)
    else range_mapped maps (add_usize (sub_usize start_vpn pages) 1) (add_usize start_vpn 1)

-- The search of `mmap` over the mapped pages, for a gap below one of them.
unfoldable pub find_gap : ProcessMemory → VirtPageId → ℕ → Map UserPage → Option VirtPageId
find_gap p brk_page pages [] = none
find_gap p brk_page pages ((mapped_vpn, _) ∷ rest) =
    let later = find_gap p brk_page pages rest in
    let next = page_sub mapped_vpn 1 in
    if leb (page_of_addr p.mmap_base) mapped_vpn || leb mapped_vpn brk_page
    then later
    else if contains_key p.maps next
    then later
    else if not (check_collapse p.maps next pages false)
    then some (page_add (page_sub next pages) 1)
    else later

-- `first_page` of `mmap` without an address
unfoldable pub first_page : ProcessMemory → ℕ → Option VirtPageId
first_page p pages =
    let mmap_base_vpn = page_sub (page_of_addr p.mmap_base) 1 in
    if not (contains_key p.maps mmap_base_vpn)
      && not (check_collapse p.maps mmap_base_vpn pages false)
    then some (page_add (page_sub mmap_base_vpn pages) 1)
    else find_gap p (page_of_addr (round_up (to_offset p.brk (negsuc 0)))) pages p.maps

module _ (fa : FrameAllocator) (vendor : VendorId) where
  open fa use {State}

  -- The loop that maps `n` new pages from `vpn`.
  unfoldable pub map_range : World State → VirtPageId → ℕ → ℕ → Outcome (World State)
  map_range w vpn zero flags = done w
  map_range w vpn (suc n) flags = do
    w' ← map_new fa vendor w vpn flags
    map_range w' (vpn + 1) n flags

  -- A page that is already mapped is dropped first.
  unfoldable pub clear_page : World State → VirtPageId → Outcome (World State)
  clear_page w vpn =
      let cleared = do (r, w') ← unmap fa w vpn; _ ← unwrap_ok r; done w'
      in if is_mapped w vpn then cleared else done w

  -- The loop of `mmap` at a fixed address, with `n` pages left.
  unfoldable pub map_over : World State → VirtPageId → ℕ → ℕ → Outcome (World State)
  map_over w vpn zero flags = done w
  map_over w vpn (suc n) flags = do
    w' ← clear_page w vpn
    w'' ← map_new fa vendor w' vpn flags
    map_over w'' (vpn + 1) n flags

  unfoldable pub mmap :
      World State → Option VirtAddr → ℕ → ℕ → Outcome (Result String VirtAddr × World State)
  mmap w (some addr) pages flags = do
    w' ← map_over w (page_of_addr addr) pages flags
    done (ok (addr_of_page (page_of_addr addr)), w')
  mmap w none pages flags = elim (first_page w.memory pages) [
    | some first ↦ do w' ← map_range w first pages flags; done (ok (addr_of_page first), w')
    | none ↦ done (err "no enough memory for mmap", w)
  ]

  -- The contents of page `src`, copied to page `dst`.
  abbrev pub copy_page : (ℕ → ℕ → ℕ) → ℕ → ℕ → ℕ → ℕ → ℕ
  copy_page c src dst q j = if q == dst then c src j else c q j

  -- The loop of `copy_from` over the pages of the other map.
  unfoldable pub copy_loop : World State → Map UserPage → Outcome (World State)
  copy_loop w [] = done w
  copy_loop w ((vpn, u) ∷ rest) = do
    (child_page, m) ← phy_page_alloc fa w.machine
    w' ←
        map fa vendor
          (record w { machine = record m { cells = copy_page m.cells u.page child_page } }) vpn
          child_page u.flags
    copy_loop w' rest

  -- `copy_from`: `min_brk` and `mmap_base` are not copied, and `copy_stack` is not looked at.
  unfoldable pub copy_from : World State → ProcessMemory → Bool → Outcome (World State)
  copy_from w other copy_stack =
      copy_loop
        (record w {
          memory = record (w.memory) {
            stack_top = other.stack_top;
            stack_base = other.stack_base;
            brk = other.brk;
            prog_end = other.prog_end;
          };
        })
        other.maps
