-- ===== src/Memory/Paging/Translate.antt =====
-- The theorems on `map`, `unmap` and `translate` of src/memory/paging.rs.
use ark_rust_kernel.Prelude.{
  ℕ, ◌+◌, ◌*◌, ◌/◌, ◌%◌, ◌^◌, ◌<◌, ◌≡◌, ◌≢◌, ◌∙◌, ap, sym, arith, Bool, false, Option, some, done,
  as_isize,
}
use mathlib.Core.Option
use ark_rust_kernel.Memory.Address.{VirtAddr, PhyAddr, page_of_addr, addr_of_page, to_offset}
use ark_rust_kernel.Memory.Frames.{FrameAllocator}
use ark_rust_kernel.Memory.Entry.{VendorId, entry_page_id}
use ark_rust_kernel.Memory.Entry.Fields.{leaf_entry_lem}
use ark_rust_kernel.Memory.Paging.{Grown, translate, map}
use ark_rust_kernel.Memory.Paging.Tree.{lookup, Node, IsTree}
use ark_rust_kernel.Memory.Paging.Walk.{index_0, translate_lem}
use ark_rust_kernel.Memory.Paging.Map.{
  entry_at, indexes_differ, map-Mapped, Mapped-self, Mapped-other, Mapped-IsTree,
}

-- The physical address that an entry gives an address.
abbrev pub target : VirtAddr → ℕ → PhyAddr
target va e = to_offset (addr_of_page (entry_page_id e)) (as_isize (va % 4096))

-- What `translate` says in the state `g`.
abbrev pub translate_in : {S : Type 0} → Grown S → VirtAddr → Option PhyAddr
translate_in g va = translate g.machine.cells g.table va

pub translate-entry_at :
    {S : Type 0} (g : Grown S) (va : VirtAddr)
    → va < 2 ^ 64
    → translate_in g va ≡ Option.map (target va) (entry_at g va)
translate-entry_at g va h = translate_lem g.machine.cells g.table va h

-- The entry for an address is the one for its page.
pub entry_at-page :
    {S : Type 0} (g : Grown S) (w va : VirtAddr)
    → page_of_addr w ≡ page_of_addr va
    → entry_at g w ≡ entry_at g va
entry_at-page g w va same =
    ap (λ p. lookup g.machine.cells g.table.entries (p / 2 ^ 18 % 512) (p / 2 ^ 9 % 512) (p % 512))
      same

module _ (fa : FrameAllocator) (vendor : VendorId) (big : ℕ → Bool) (owner : ℕ → Option Node)
    (g h : Grown fa.State) (va pa flags : ℕ) (t : IsTree fa big owner g)
    (free : big (index_0 va) ≡ false) (mapped : map fa vendor g va pa flags ≡ done h) where
  -- After `map` succeeds outside the gigabytes of `map_big`, in page tables that are a tree,
  -- `translate` takes every byte of the mapped page to the same byte of the physical page.
  pub translate-map :
      (w : VirtAddr)
      → page_of_addr w ≡ page_of_addr va
      → w < 2 ^ 64
      → pa < 2 ^ 56
      → flags < 2 ^ 8
      → translate_in h w ≡ some (pa / 4096 * 4096 + w % 4096)
  translate-map w same hw hp hf =
      translate-entry_at h w hw
      ∙ ap (Option.map (target w)) (
          entry_at-page h w va same
          ∙ Mapped-self fa vendor big owner g va pa flags t free
              (map-Mapped fa vendor big owner g va pa flags t free mapped))
      ∙ ground (arith, leaf_entry_lem vendor va (pa / 4096) flags (omega arith) hf)

  -- `map` changes the translation of no other page.
  pub translate-map_other :
      (w : VirtAddr)
      → va < 2 ^ 39
      → w < 2 ^ 39
      → page_of_addr va ≢ page_of_addr w
      → big (index_0 w) ≡ false
      → translate_in h w ≡ translate_in g w
  translate-map_other w hv hw ne fw =
      translate-entry_at h w (omega arith)
      ∙ ap (Option.map (target w)) (
          Mapped-other fa vendor big owner g va pa flags t free
            (map-Mapped fa vendor big owner g va pa flags t free mapped) w fw
            (indexes_differ va w hv hw ne))
      ∙ sym (translate-entry_at g w (omega arith))

  -- Outside the gigabytes of `map_big`, `map` keeps the page tables a tree, so that it can be called
  -- again.
  pub map-IsTree : (o : ℕ → Option Node) × IsTree fa big o h
  map-IsTree =
      Mapped-IsTree fa vendor big owner g va pa flags t free
        (map-Mapped fa vendor big owner g va pa flags t free mapped)
