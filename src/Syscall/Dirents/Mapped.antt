-- ===== src/Syscall/Dirents/Mapped.antt =====
-- A write of `getdents64` of src/syscall/file.rs to a buffer that lies in one page.
use ark_rust_kernel.Prelude.{
  ℕ, ◌+◌, ◌*◌, ◌/◌, ◌%◌, ◌^◌, ◌<◌, ◌≤◌, ◌≡◌, sym, ◌∙◌, ap, arith, List, Option, some, done, unwrap,
  ◌>>=◌, length, pos, ◌==◌, if◌then◌else◌,
}
use ark_rust_kernel.Memory.Address.{page_of_addr, to_offset}
use ark_rust_kernel.Memory.Frames.{FrameAllocator}
use ark_rust_kernel.Memory.Entry.{VendorId}
use ark_rust_kernel.Memory.Paging.{Grown}
use ark_rust_kernel.Syscall.Dirents.{access_continuously, write_record}

-- The buffer and the byte behind it lie in one page, which is mapped to `frame`.
pub record InOnePage (translate : ℕ → Option ℕ) (buf len : ℕ) : Type 0 where
  pub frame : ℕ
  pub frame_fits : frame < 2 ^ 44
  pub mapped : (i : ℕ) → i < 4096 → translate (buf / 4096 * 4096 + i) ≡ some (frame * 4096 + i)
  pub one_page : (buf + len) / 4096 ≡ buf / 4096

module _ (fa : FrameAllocator) (vendor : VendorId) (translate : ℕ → Option ℕ) where
  -- The kernel's page table is not needed.
  pub write_mapped :
      (k : Grown fa.State) (buf len cur : ℕ) (b : List ℕ)
      → InOnePage translate buf len
      → buf ≤ cur
      → cur + length b ≤ buf + len
      → write_record fa vendor translate k cur b ≡ done k
  unfolding write_record
  write_mapped k buf len cur b page low high =
      let frame = page.frame in
      let fits = page.frame_fits in
      let one = page.one_page in
      let here : buf / 4096 * 4096 + cur % 4096 ≡ cur = omega arith in
      let e : translate cur ≡ some (frame * 4096 + cur % 4096) =
        ap translate (sym here) ∙ page.mapped (cur % 4096) (omega arith) in
      let same : page_of_addr (to_offset (frame * 4096 + cur % 4096) (pos (length b)))
          ≡ page_of_addr (frame * 4096 + cur % 4096) =
        omega arith in
      ap
        (λ (o : Option ℕ). unwrap o >>= λ pa.
          if page_of_addr (to_offset pa (pos (length b))) == page_of_addr pa
          then done k
          else access_continuously fa vendor translate k cur (length b))
        e
      ∙ ground (arith, same)
