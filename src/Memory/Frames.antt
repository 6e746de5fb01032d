-- ===== src/Memory/Frames.antt =====
-- `PhyPage` of src/memory/page_allocator.rs. The buddy allocator behind `PAGE_ALLOCATOR` is a
-- library; what the kernel asks of it is the record `FrameAllocator`. A page of physical memory is
-- seen as 512 cells of 64 bits.
use ark_rust_kernel.Prelude.{
  ℕ, zero, suc, ◌+◌, ◌^◌, ◌<◌, ◌≡◌, List, [], ◌∷◌, Option, none, some, arith, leb, ◌==◌,
  if◌then◌else◌, Outcome, done, unwrap, ◌>>=◌, ◌&&◌,
}

pub record FrameAllocator : Type 1 where
  pub State : Type 0
  pub alloc : State → ℕ → Option (ℕ × State)
  pub dealloc : State → ℕ → ℕ → State
  -- The frames that are handed out.
  pub Used : State → ℕ → Type 0
  -- Frames that are handed out were free, are used from then on, and lie in the 56-bit physical
  -- address space; the frames used before stay used.
  pub alloc_fresh :
      (s : State) (n first i : ℕ) (t : State)
      → alloc s n ≡ some (first, t)
      → i < n
      → ¬ Used s (first + i)
  pub alloc_used :
      (s : State) (n first i : ℕ) (t : State)
      → alloc s n ≡ some (first, t)
      → i < n
      → Used t (first + i)
  pub alloc_keeps :
      (s : State) (n first q : ℕ) (t : State) → alloc s n ≡ some (first, t) → Used s q → Used t q
  pub alloc_fits :
      (s : State) (n first i : ℕ) (t : State)
      → alloc s n ≡ some (first, t)
      → i < n
      → first + i < 2 ^ 44

-- Physical memory by page and cell, and the state of the allocator.
pub record Machine (S : Type 0) : Type 0 where
  pub cells : ℕ → ℕ → ℕ
  pub frames : S

abbrev pub write_cell : (ℕ → ℕ → ℕ) → ℕ → ℕ → ℕ → ℕ → ℕ → ℕ
write_cell c p i v q j = if q == p && j == i then v else c q j

abbrev pub zero_page : (ℕ → ℕ → ℕ) → ℕ → ℕ → ℕ → ℕ
zero_page c p q j = if q == p then 0 else c q j

-- The page ids `first`, `first + 1`, … of `alloc_many`.
unfoldable pub page_ids : ℕ → ℕ → List ℕ
page_ids first zero = []
page_ids first (suc n) = first ∷ page_ids (first + 1) n

module _ (fa : FrameAllocator) where
  open fa use {State, alloc, dealloc}

  -- `PhyPage::alloc`: one page, filled with zeros.
  unfoldable pub phy_page_alloc : Machine State → Outcome (ℕ × Machine State)
  phy_page_alloc m = do
    (id, s) ← unwrap (alloc m.frames 1)
    done (id, record { cells = zero_page m.cells id; frames = s })

  -- `PhyPage::alloc_many`: successive pages, not cleared.
  unfoldable pub phy_page_alloc_many : Machine State → ℕ → Outcome (List ℕ × Machine State)
  phy_page_alloc_many m count = do
    (start_id, s) ← unwrap (alloc m.frames count)
    done (page_ids start_id count, record m { frames = s })

  -- `Drop for PhyPage`
  unfoldable pub phy_page_drop : Machine State → ℕ → Machine State
  phy_page_drop m id = record m { frames = dealloc m.frames id 1 }

-- An allocator that hands out frames in order meets the interface.
unfoldable pub bump_alloc : ℕ → ℕ → Option (ℕ × ℕ)
bump_alloc s n = if leb (s + n) (2 ^ 44) then some (s, s + n) else none

pub bump_fresh : (s n first i t : ℕ) → bump_alloc s n ≡ some (first, t) → i < n → ¬ (first + i < s)
unfolding bump_alloc
bump_fresh s n first i t e h = ground arith

pub bump_used : (s n first i t : ℕ) → bump_alloc s n ≡ some (first, t) → i < n → first + i < t
unfolding bump_alloc
bump_used s n first i t e h = ground arith

pub bump_keeps : (s n first q t : ℕ) → bump_alloc s n ≡ some (first, t) → q < s → q < t
unfolding bump_alloc
bump_keeps s n first q t e h = ground arith

pub bump_fits : (s n first i t : ℕ) → bump_alloc s n ≡ some (first, t) → i < n → first + i < 2 ^ 44
unfolding bump_alloc
bump_fits s n first i t e h = ground arith

abbrev pub bump : FrameAllocator
bump = record {
  State = ℕ;
  alloc = bump_alloc;
  dealloc = λ s p n. s;
  Used = λ s p. p < s;
  alloc_fresh = bump_fresh;
  alloc_used = bump_used;
  alloc_keeps = bump_keeps;
  alloc_fits = bump_fits;
}
