-- ===== src/Syscall/Dirents/Pages.antt =====
-- The pages that `access_continuously` of src/memory/address.rs asks for: the last one is that of
-- the byte behind the access.
use ark_rust_kernel.Prelude.{
  ℕ, zero, suc, ◌+◌, ◌-◌, ◌*◌, ◌/◌, ◌^◌, ◌<◌, ◌≤◌, ◌≡◌, refl, sym, ◌∙◌, ap, arith, Option, none,
  Outcome, done, panic, unwrap, ◌>>=◌, pos, bit_or,
}
use ark_rust_kernel.Memory.Address.{page_of_addr, addr_of_page, page_add, to_offset}
use ark_rust_kernel.Memory.Frames.{FrameAllocator}
use ark_rust_kernel.Memory.Entry.{VendorId}
use ark_rust_kernel.Memory.PteFlag
use ark_rust_kernel.Memory.Paging
use ark_rust_kernel.Memory.Paging.{Grown}
use ark_rust_kernel.Syscall.Dirents.{start_trampoline, page_count, map_pages, access_continuously}

then_panic :
    {A B : Type 0} (m : Outcome A) (f : A → Outcome B) → ((a : A) → f a ≡ panic) → (m >>= f) ≡ panic
then_panic (done a) f e = e a
then_panic panic f e = refl

module _ (fa : FrameAllocator) (vendor : VendorId) (translate : ℕ → Option ℕ) where
  -- The page of the window, and the rest of the loop
  abbrev map_one : Grown fa.State → ℕ → ℕ → ℕ → ℕ → Outcome (Grown fa.State)
  map_one k n pg n_kernel pa =
      Paging.map fa vendor k (addr_of_page (page_add (page_of_addr start_trampoline) n_kernel)) pa
        (bit_or (bit_or PteFlag.r PteFlag.w) PteFlag.x)
      >>= λ k'. map_pages fa vendor translate k' n (pg + 1) (n_kernel + 1)

  map_pages_missing :
      (n m : ℕ) (k : Grown fa.State) (pg n_kernel : ℕ)
      → m < n
      → translate (addr_of_page (pg + m)) ≡ none
      → map_pages fa vendor translate k n pg n_kernel ≡ panic
  unfolding map_pages
  map_pages_missing zero m k pg n_kernel h e = elim h [ ]
  map_pages_missing (suc n) zero k pg n_kernel h e =
      let at : pg ≡ pg + 0 = omega arith in
      ap (λ (o : Option ℕ). unwrap o >>= map_one k n pg n_kernel)
        (ap (λ j. translate (addr_of_page j)) at ∙ e)
  map_pages_missing (suc n) (suc m) k pg n_kernel h e =
      let at : (pg + 1) + m ≡ pg + suc m = omega arith in
      then_panic (unwrap (translate (addr_of_page pg))) (map_one k n pg n_kernel) (λ pa.
        then_panic
          (Paging.map fa vendor k (addr_of_page (page_add (page_of_addr start_trampoline) n_kernel))
            pa (bit_or (bit_or PteFlag.r PteFlag.w) PteFlag.x))
          (λ k'. map_pages fa vendor translate k' n (pg + 1) (n_kernel + 1))
          (λ k'.
            map_pages_missing n m k' (pg + 1) (n_kernel + 1) (omega arith)
              (ap (λ j. translate (addr_of_page j)) at ∙ e)))

  -- An access of bytes that end where a page `p` begins panics if the page `p`, of which it touches
  -- no byte, is not mapped, whatever the pages of the bytes are.
  access_past_end_panics :
      (k : Grown fa.State) (va size p : ℕ)
      → va + size ≡ p * 4096
      → va + size < 2 ^ 64
      → translate (addr_of_page p) ≡ none
      → access_continuously fa vendor translate k va size ≡ panic
  unfolding access_continuously
  access_past_end_panics k va size p e fits missing =
      let last : page_of_addr (to_offset va (pos size)) ≡ p = omega arith in
      let first : va / 4096 ≤ p = omega arith in
      let at : p ≡ page_of_addr va + (p - page_of_addr va) = omega arith in
      ap
        (λ (m : Outcome (Grown fa.State)). m >>= λ mapped.
          (Paging.unmap_many mapped.machine.cells mapped.table start_trampoline
              (page_count fa vendor translate va size)
            >>= λ c. done (record mapped { machine = record (mapped.machine) { cells = c } })))
        (map_pages_missing (page_count fa vendor translate va size) (p - page_of_addr va) k
          (page_of_addr va) 0 (omega arith)
          (ap (λ j. translate (addr_of_page j)) (sym at) ∙ missing))
