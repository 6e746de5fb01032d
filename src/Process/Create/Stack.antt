-- ===== src/Process/Create/Stack.antt =====
-- Where the kernel stack of src/process/process.rs begins.
use ark_rust_kernel.Prelude.{
  ℕ, zero, suc, ◌+◌, ◌*◌, ◌<◌, ◌≡◌, arith, List, some, done, get_elem?, Option-cases, inl, inr,
}
use ark_rust_kernel.Memory.Frames.{FrameAllocator, Machine, page_ids, phy_page_alloc_many}
use ark_rust_kernel.Process.Create.{kernel_stack_of}

get-page_ids : (first n i : ℕ) → i < n → get_elem? (page_ids first n) i ≡ some (first + i)
unfolding page_ids
get-page_ids first zero i h = absurd (omega arith)
get-page_ids first (suc n) zero h = ground arith
get-page_ids first (suc n) (suc i) h = ground (arith, get-page_ids (first + 1) n i)

-- The stack pointer of a new process lies 511 pages above the end of its kernel stack: the size of
-- the whole stack is added to the address of its last page.
pub kernel_sp_beyond :
    (fa : FrameAllocator) (m m' : Machine fa.State) (pages : List ℕ) (first sp : ℕ)
    → kernel_stack_of fa m ≡ done (pages, sp, m')
    → get_elem? pages 0 ≡ some first
    → sp ≡ (first + 512) * 4096 + 511 * 4096
unfolding kernel_stack_of phy_page_alloc_many
kernel_sp_beyond fa m m' pages first sp e h = elim (Option-cases (fa.alloc m.frames 512)) [
  | inl full ↦ absurd (ground (arith, full))
  | inr ((start, s), found) ↦ ground (
    arith,
    found,
    get-page_ids start 512 511 (omega arith),
    get-page_ids start 512 0 (omega arith),
    fa.alloc_fits m.frames 512 start 0 s found (omega arith),
  )
]
