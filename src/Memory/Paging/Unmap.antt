-- ===== src/Memory/Paging/Unmap.antt =====
-- `unmap` of src/memory/paging.rs, and what `map` and `unmap` refuse.
use ark_rust_kernel.Prelude.{
  ℕ, ◌^◌, ◌<◌, ◌≡◌, ◌≢◌, ◌∙◌, ap, sym, arith, Bool, true, false, Option, none, some, Option-cases,
  Outcome-cases, ◌↔◌, inl, inr, done, panic,
}
use mathlib.Core.Path.{subst}
use mathlib.Core.Option
use ark_rust_kernel.Memory.Address.{VirtAddr, page_of_addr}
use ark_rust_kernel.Memory.Frames.{FrameAllocator, write_cell}
use ark_rust_kernel.Memory.Entry.{VendorId, entry_page_id, valid}
use ark_rust_kernel.Memory.Paging.{Cells, Place, Grown, map, unmap}
use ark_rust_kernel.Memory.Paging.Tree.{Node, top, mid, low, Links, IsTree, lookup}
use ark_rust_kernel.Memory.Paging.Walk.{index_0, index_1, index_2, place_of, find_pte_lem}
use ark_rust_kernel.Memory.Paging.Create.{valid-zero}
use ark_rust_kernel.Memory.Paging.Leaf.{
  write_cell-Links, lookup-write_cell_self, lookup-write_cell_ne,
}
use ark_rust_kernel.Memory.Paging.Map.{entry_at, indexes_differ, Mapped, map-Mapped}
use ark_rust_kernel.Memory.Paging.Translate.{
  target, translate_in, translate-entry_at, entry_at-page,
}

-- The state with other cells.
abbrev pub with_cells : {S : Type 0} → Grown S → Cells → Grown S
with_cells g c = record g { machine = record (g.machine) { cells = c } }

-- A walk ends in a table of the last level.
place_of-low :
    (big : ℕ → Bool) (owner : ℕ → Option Node) (c : Cells) (root a b d : ℕ) (at : Place)
    → Links big owner c
    → owner root ≡ some top
    → big a ≡ false
    → place_of c root a b d ≡ some at
    → (owner (at.0) ≡ some (low a b)) × (at.1 ≡ d)
place_of-low big owner c root a b d at links r free e =
    ground (arith, links root a top (mid a) r, links (entry_page_id (c root a)) b (mid a) (low a b))

module _ (fa : FrameAllocator) (big : ℕ → Bool) (owner : ℕ → Option Node) (g : Grown fa.State)
    (va : VirtAddr) (t : IsTree fa big owner g) (free : big (index_0 va) ≡ false) where
  -- What a successful `unmap` did.
  record Unmapped (c : Cells) : Type 0 where
    page : ℕ
    is_low : owner page ≡ some (low (index_0 va) (index_1 va))
    walk :
        place_of g.machine.cells g.table.entries (index_0 va) (index_1 va) (index_2 va)
        ≡ some (page, index_2 va)
    was_valid : valid (g.machine.cells page (index_2 va)) ≡ true
    result : c ≡ write_cell g.machine.cells page (index_2 va) 0

  unmap_place :
      {c : Cells} (at : Place)
      → place_of g.machine.cells g.table.entries (index_0 va) (index_1 va) (index_2 va) ≡ some at
      → unmap g.machine.cells g.table va ≡ done c
      → Unmapped c
  unfolding unmap
  unmap_place {c} at e done_c =
      let ends =
        place_of-low big owner g.machine.cells g.table.entries (index_0 va) (index_1 va)
          (index_2 va) at t.links t.root free e in
      record {
        page = at.0;
        is_low = ends.0;
        walk = ground (arith, e, ends);
        was_valid = ground (arith, e, ends, find_pte_lem g.machine.cells g.table va, done_c);
        result = ground (arith, e, ends, find_pte_lem g.machine.cells g.table va, done_c);
      }

  unmap-Unmapped : {c : Cells} → unmap g.machine.cells g.table va ≡ done c → Unmapped c
  unfolding unmap
  unmap-Unmapped {c} e =
      elim (Option-cases
        (place_of g.machine.cells g.table.entries (index_0 va) (index_1 va) (index_2 va))) [
          | inl lost ↦ absurd (ground (arith, lost, find_pte_lem g.machine.cells g.table va, e))
          | inr (at, found) ↦ unmap_place at found e
        ]

  module _ {c : Cells} (unmapped : unmap g.machine.cells g.table va ≡ done c) where
    -- After `unmap` succeeds, no byte of the page is mapped any more.
    pub translate-unmap :
        (w : VirtAddr)
        → page_of_addr w ≡ page_of_addr va
        → w < 2 ^ 64
        → translate_in (with_cells g c) w ≡ none
    translate-unmap w same h =
        translate-entry_at (with_cells g c) w h
        ∙ ap (Option.map (target w)) (
            entry_at-page (with_cells g c) w va same
            ∙ ap (λ x. entry_at (with_cells g x) va) u.result
            ∙ lookup-write_cell_self big owner g.machine.cells g.table.entries u.page (index_0 va)
                (index_1 va) (index_2 va) 0 t.links u.is_low t.root free u.walk)
        ∙ ground (arith, valid-zero)
      where
        u : Unmapped c
        u = unmap-Unmapped unmapped

    -- `unmap` changes the translation of no other page.
    pub translate-unmap_other :
        (w : VirtAddr)
        → va < 2 ^ 39
        → w < 2 ^ 39
        → page_of_addr va ≢ page_of_addr w
        → big (index_0 w) ≡ false
        → translate_in (with_cells g c) w ≡ translate_in g w
    translate-unmap_other w hv hw ne fw =
        translate-entry_at (with_cells g c) w (omega arith)
        ∙ ap (Option.map (target w)) (
            ap (λ x. entry_at (with_cells g x) w) u.result
            ∙ lookup-write_cell_ne big owner g.machine.cells g.table.entries u.page (index_0 va)
                (index_1 va) (index_2 va) 0 t.links u.is_low (index_0 w) (index_1 w) (index_2 w)
                t.root fw (indexes_differ va w hv hw ne))
        ∙ sym (translate-entry_at g w (omega arith))
      where
        u : Unmapped c
        u = unmap-Unmapped unmapped

    -- `unmap` keeps the page tables a tree.
    pub unmap-IsTree : IsTree fa big owner (with_cells g c)
    unmap-IsTree = record {
      root = t.root;
      used = t.used;
      links = subst (Links big owner) (sym u.result) (
          write_cell-Links big owner g.machine.cells g.table.entries u.page (index_0 va)
            (index_1 va) (index_2 va) 0 t.links u.is_low);
    }
      where
        u : Unmapped c
        u = unmap-Unmapped unmapped

walk_to_invalid :
    (c : Cells) (root a b d q : ℕ)
    → place_of c root a b d ≡ some (q, d)
    → valid (c q d) ≡ false
    → lookup c root a b d ≡ none
walk_to_invalid c root a b d q e v = ground arith

-- `map` succeeds only where nothing is mapped.
pub map-free :
    (fa : FrameAllocator) (vendor : VendorId) (big : ℕ → Bool) (owner : ℕ → Option Node)
    (g h : Grown fa.State) (va pa flags : ℕ)
    → IsTree fa big owner g
    → big (index_0 va) ≡ false
    → map fa vendor g va pa flags ≡ done h
    → entry_at g va ≡ none
map-free fa vendor big owner g h va pa flags t free e =
    sym (same (index_0 va) (index_1 va) (index_2 va) free)
    ∙ walk_to_invalid m.middle.machine.cells m.middle.table.entries (index_0 va) (index_1 va)
        (index_2 va) page walk m.was_free
  where
    m : Mapped fa vendor big owner g va pa flags t free h
    m = map-Mapped fa vendor big owner g va pa flags t free e

    open m.created use {page, walk, extends}
    open extends use {same}

-- `map` of an address that is already mapped panics: no mapping is replaced silently.
pub map_mapped_panics :
    (fa : FrameAllocator) (vendor : VendorId) (big : ℕ → Bool) (owner : ℕ → Option Node)
    (g : Grown fa.State) (va pa flags : ℕ)
    → IsTree fa big owner g
    → big (index_0 va) ≡ false
    → va < 2 ^ 64
    → translate_in g va ≢ none
    → map fa vendor g va pa flags ≡ panic
map_mapped_panics fa vendor big owner g va pa flags t free hv ne =
    elim (Outcome-cases (map fa vendor g va pa flags)) [
      | inl p ↦ p
      | inr (h, e) ↦ absurd (
          ne (
            translate-entry_at g va hv
            ∙ ap (Option.map (target va)) (map-free fa vendor big owner g h va pa flags t free e)))
    ]

-- `unmap` panics exactly where nothing is mapped.
pub unmap_panics_iff :
    (fa : FrameAllocator) (g : Grown fa.State) (va : VirtAddr)
    → va < 2 ^ 64
    → (unmap g.machine.cells g.table va ≡ panic) ↔ (translate_in g va ≡ none)
unfolding unmap
unmap_panics_iff fa g va h = (
  λ e. ground (arith, find_pte_lem g.machine.cells g.table va, translate-entry_at g va h),
  λ e. ground (arith, find_pte_lem g.machine.cells g.table va, translate-entry_at g va h),
)
