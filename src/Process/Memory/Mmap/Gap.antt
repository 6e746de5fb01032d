-- ===== src/Process/Memory/Mmap/Gap.antt =====
-- The pages that `mmap` of src/process/process_memory.rs chooses are free.
use ark_rust_kernel.Prelude.{
  negsuc, ℕ, zero, suc, ◌+◌, ◌-◌, ◌%◌, ◌^◌, ◌≤◌, ◌<◌, ◌≡◌, arith, [], ◌∷◌, some, Bool, true, false,
  ◌&&◌, ltb,
}
use ark_rust_kernel.Prelude.Maps.{Map, contains_key}
use ark_rust_kernel.Memory.Address.{round_up, to_offset, page_of_addr, page_sub, page_add}
use ark_rust_kernel.Process.Memory.{UserPage, ProcessMemory}
use ark_rust_kernel.Process.Memory.Mmap.{any_mapped, check_collapse, find_gap, first_page}

any_mapped-false :
    (maps : Map UserPage) (first n q : ℕ)
    → any_mapped maps first n ≡ false
    → first ≤ q
    → q < first + n
    → contains_key maps q ≡ false
any_mapped-false maps first zero q e h k = absurd (omega arith)
any_mapped-false maps first (suc n) q e h k = ground (arith, any_mapped-false maps (first + 1) n q)

-- The page below `lo` is passed over, so `page_sub` did not stop at 0.
gap_free :
    (maps : Map UserPage) (next pages q : ℕ)
    → check_collapse maps next pages false ≡ false
    → next < 2 ^ 52
    → pages < 2 ^ 52
    → 1 < page_add (page_sub next pages) 1
    → page_add (page_sub next pages) 1 ≤ q
    → q < page_add (page_sub next pages) 1 + pages
    → contains_key maps q ≡ false
unfolding check_collapse
gap_free maps next pages q e h k low l r =
    ground (arith, any_mapped-false maps (next + 1 - pages) pages q)

abbrev pub keys_below : ℕ → Map UserPage → Bool
keys_below top [] = true
keys_below top ((k, u) ∷ rest) = ltb k top && keys_below top rest

find_gap-free :
    (p : ProcessMemory) (brk_page pages first q : ℕ) (l : Map UserPage)
    → keys_below (2 ^ 52) l ≡ true
    → find_gap p brk_page pages l ≡ some first
    → pages < 2 ^ 52
    → 1 < first
    → first ≤ q
    → q < first + pages
    → contains_key p.maps q ≡ false
unfolding find_gap
find_gap-free p brk_page pages first q [] b e s low h k = cc
find_gap-free p brk_page pages first q ((vpn, u) ∷ rest) b e s low h k =
    ground
      (arith, find_gap-free p brk_page pages first q rest, gap_free p.maps (page_sub vpn 1) pages q)

-- The pages that `mmap` chooses itself are not mapped, unless it chooses page 1: a request for
-- more pages than there are below the place where it looks ends there, by a subtraction that stops
-- at 0 after a check that wraps.
pub first_page_free :
    (p : ProcessMemory) (pages first q : ℕ)
    → keys_below (2 ^ 52) p.maps ≡ true
    → p.mmap_base < 2 ^ 64
    → pages < 2 ^ 52
    → first_page p pages ≡ some first
    → 1 < first
    → first ≤ q
    → q < first + pages
    → contains_key p.maps q ≡ false
unfolding first_page
first_page_free p pages first q b m s e low h k = ground (
  arith,
  find_gap-free p (page_of_addr (round_up (to_offset p.brk (negsuc 0)))) pages first q p.maps b,
  gap_free p.maps (page_sub (page_of_addr p.mmap_base) 1) pages q,
)

-- More pages than lie below the page that is looked at are never found mapped, whatever is.
pub check_collapse_wraps :
    (maps : Map UserPage) (start pages : ℕ)
    → start + 1 < pages
    → pages < 2 ^ 52
    → check_collapse maps start pages false ≡ false
unfolding check_collapse
check_collapse_wraps maps start pages h s =
    let none_left : start + 1 - ((start + 2 ^ 64 - pages) % 2 ^ 64 + 1) ≡ 0 = omega arith in
    ground arith
