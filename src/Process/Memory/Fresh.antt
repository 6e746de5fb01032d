-- ===== src/Process/Memory/Fresh.antt =====
-- The memory of a new process, src/process/process_memory.rs: nothing is mapped for the user.
use ark_rust_kernel.Prelude.{
  ℕ, ◌+◌, ◌*◌, ◌/◌, ◌^◌, ◌<◌, ◌≡◌, ◌∙◌, ap, sym, arith, Bool, false, ◌||◌, [], Option, none, some,
  ◌==◌, done, >>=-eq-done, Option-cases, inl, inr,
}
use mathlib.Core.Path.{subst}
use mathlib.Core.Option
use ark_rust_kernel.Memory.Frames.{FrameAllocator, Machine, phy_page_alloc}
use ark_rust_kernel.Memory.Entry.{VendorId, valid}
use ark_rust_kernel.Memory.Address.{VirtAddr}
use ark_rust_kernel.Memory.Paging
use ark_rust_kernel.Memory.Paging.{Grown, map_big}
use ark_rust_kernel.Memory.Paging.Walk.{index_0}
use ark_rust_kernel.Memory.Paging.Create.{valid-zero}
use ark_rust_kernel.Memory.Paging.Tree.{Node, top, mid, low, child, IsTree}
use ark_rust_kernel.Memory.Paging.Map.{entry_at}
use ark_rust_kernel.Memory.Paging.Translate.{translate_in, translate-entry_at, target}
use ark_rust_kernel.Memory.Paging.Big.{big_entry}
use ark_rust_kernel.Memory.Paging.Fresh.{new-IsTree, map_big-IsTree}
use ark_rust_kernel.Process.Memory.{
  World, kernel_table, kernel_flags, kernel_space_base, new, process_user_stack_base,
  process_mmap_base,
}
use ark_rust_kernel.Process.Memory.Coherent.{only_kernel, IsCoherent, user_index}

module _ (fa : FrameAllocator) where
  -- A tree stays one when the gigabytes are told by an equal test.
  IsTree-with :
      (big big' : ℕ → Bool) (o : ℕ → Option Node) (g : Grown fa.State)
      → ((i : ℕ) → big i ≡ big' i)
      → IsTree fa big o g
      → IsTree fa big' o g
  IsTree-with big big' o g same t = record {
    root = t.root;
    used = t.used;
    links = λ p i n k h u v. t.links p i n k h (same_child n k i u) v;
  }
    where
      same_child : (n k : Node) (i : ℕ) → child big' n i ≡ some k → child big n i ≡ some k
      same_child top k i u = ground (arith, same i)
      same_child (mid a) k i u = u
      same_child (low a b) k i u = u

  -- No entry of a new root is valid.
  new_empty :
      (m : Machine fa.State) (g : Grown fa.State) (i : ℕ)
      → Paging.new fa m ≡ done g
      → valid (g.machine.cells g.table.entries i) ≡ false
  unfolding Paging.new phy_page_alloc
  new_empty m g i e = elim (Option-cases (fa.alloc m.frames 1)) [
    | inl full ↦ absurd (ground arith)
    | inr ((page, s), found) ↦ ground (arith, valid-zero)
  ]

  module _ (vendor : VendorId) where
    user_unmapped :
        (g h : Grown fa.State) (va : VirtAddr)
        → ((i : ℕ) → valid (g.machine.cells g.table.entries i) ≡ false)
        → map_big fa vendor g kernel_space_base kernel_space_base kernel_flags ≡ done h
        → only_kernel (index_0 va) ≡ false
        → va < 2 ^ 64
        → translate_in h va ≡ none
    user_unmapped g h va empty e user fits =
        translate-entry_at h va fits ∙ ap (Option.map (target va)) nothing
      where
        nothing : entry_at h va ≡ none
        nothing =
            ap (λ s. entry_at s va)
              (big_entry fa vendor g h kernel_space_base kernel_space_base kernel_flags e)
            ∙ ground (arith, empty (index_0 va))

    kernel_table-done :
        (m : Machine fa.State) (h : Grown fa.State)
        → kernel_table fa vendor m ≡ done h
        → (g : Grown fa.State) × (Paging.new fa m ≡ done g)
          × (map_big fa vendor g kernel_space_base kernel_space_base kernel_flags ≡ done h)
    unfolding kernel_table
    kernel_table-done m h e = >>=-eq-done (Paging.new fa m) _ e

    -- The memory of a process over a new page table.
    start : Grown fa.State → World fa.State
    start g = record {
      machine = g.machine;
      memory = record {
        page_table = g.table;
        maps = [];
        prog_end = 0;
        min_brk = 0;
        brk = 0;
        stack_base = process_user_stack_base;
        stack_top = process_user_stack_base;
        mmap_base = process_mmap_base;
      };
    }

    new-done :
        (m : Machine fa.State) (w : World fa.State)
        → new fa vendor m ≡ done w
        → (h : Grown fa.State) × (kernel_table fa vendor m ≡ done h) × (done (start h) ≡ done w)
    unfolding new start
    new-done m w e = >>=-eq-done (kernel_table fa vendor m) _ e

    start-IsCoherent :
        (m : Machine fa.State) (h : Grown fa.State)
        → kernel_table fa vendor m ≡ done h
        → IsCoherent fa (start h)
    unfolding start
    start-IsCoherent m h e =
        let (g, made, big) = kernel_table-done m h e in
        let (o, t) = new-IsTree fa m made in
        record {
          owner = o;
          tree =
              IsTree-with (λ i. i == kernel_space_base / 2 ^ 30 || false) only_kernel o h
                (λ i. ground arith)
                (map_big-IsTree fa vendor (λ i. false) o g h kernel_space_base kernel_space_base
                  kernel_flags t big);
          agrees = λ vpn offset u k.
              user_unmapped g h (vpn * 4096 + offset) (λ i. new_empty m g i made) big
                (user_index vpn offset u k) (omega arith);
        }

    -- Every address of the user space is unmapped in a new process, as its empty map says.
    pub new_refines :
        (m : Machine fa.State) (w : World fa.State)
        → new fa vendor m ≡ done w
        → IsCoherent fa w × (w.memory.maps ≡ [])
    unfolding start
    new_refines m w e =
        let (h, made, same) = new-done m w e in
        let is : start h ≡ w = ground arith in
        (subst (IsCoherent fa) is (start-IsCoherent m h made), ap (λ x. x.memory.maps) (sym is))
