-- ===== src/Syscall/Memory/Unmap.antt =====
-- What `munmap` of src/syscall/memory.rs refuses.
use ark_rust_kernel.Prelude.{
  ℕ, suc, ◌-◌, ◌/◌, ◌%◌, ◌^◌, ◌≤◌, ◌<◌, ◌≡◌, ◌∙◌, ap, arith, none, done, panic, ◌>>=◌, add_usize,
  ok,
}
use ark_rust_kernel.Prelude.Maps.{get}
use ark_rust_kernel.Memory.Address.{page_of_addr, page_size}
use ark_rust_kernel.Memory.Frames.{FrameAllocator}
use ark_rust_kernel.Memory.Entry.{VendorId}
use ark_rust_kernel.Process.Memory.{World, unmap}
use ark_rust_kernel.Syscall.Memory.{munmap, unmap_range}

module _ (fa : FrameAllocator) (vendor : VendorId) (w : World fa.State) where
  range_panics :
      (vpn n : ℕ) → get w.memory.maps vpn ≡ none → unmap_range fa vendor w vpn (suc n) ≡ panic
  unfolding unmap_range unmap
  range_panics vpn n e = ground (arith, e)

  -- `munmap` panics if it reaches at least a page and the first page is not mapped.
  pub munmap_panics :
      (addr len : ℕ)
      → get w.memory.maps (page_of_addr addr) ≡ none
      → 4096 ≤ len
      → len < 2 ^ 63
      → munmap fa vendor w addr len ≡ panic
  unfolding munmap
  munmap_panics addr len e h k =
      let n = add_usize len (addr % page_size) / page_size in
      ap (λ o. o >>= λ w'. done (ok 0, w'))
        (ap (unmap_range fa vendor w (page_of_addr addr))
            (let more : n ≡ suc (n - 1) = omega arith in more)
          ∙ range_panics (page_of_addr addr) (n - 1) e)
