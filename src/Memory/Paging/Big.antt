-- ===== src/Memory/Paging/Big.antt =====
-- `map_big` of src/memory/paging.rs against `find_pte`, which takes every valid entry of the first
-- two levels for one that leads to a table.
use ark_rust_kernel.Prelude.{ℕ, ◌/◌, ◌^◌, ◌<◌, ◌≡◌, ◌≢◌, ◌∙◌, ap, arith, false, none, done}
use mathlib.Core.Option
use ark_rust_kernel.Memory.Address.{page_of_addr}
use ark_rust_kernel.Memory.Frames.{FrameAllocator, write_cell}
use ark_rust_kernel.Memory.Entry.{VendorId, valid, leaf_entry}
use ark_rust_kernel.Memory.Entry.Fields.{leaf_entry_lem}
use ark_rust_kernel.Memory.Paging.{Grown, set_pte, map_big}
use ark_rust_kernel.Memory.Paging.Walk.{index_0, index_1}
use ark_rust_kernel.Memory.Paging.Map.{entry_at}
use ark_rust_kernel.Memory.Paging.Translate.{target, translate_in, translate-entry_at}

pub big_entry :
    (fa : FrameAllocator) (vendor : VendorId) (g h : Grown fa.State) (va pa flags : ℕ)
    → map_big fa vendor g va pa flags ≡ done h
    → h ≡ record g {
      machine = record (g.machine) {
        cells =
            write_cell g.machine.cells g.table.entries
              (va / 2 ^ 30)
              (leaf_entry vendor va (page_of_addr pa) flags);
      };
    }
unfolding map_big set_pte
big_entry fa vendor g h va pa flags e = ground arith

-- After `map_big`, an address in the gigabyte that it mapped is translated through the mapped
-- memory, read as a page table: unless what stands there looks like a valid entry, `translate`
-- finds nothing, although the address is mapped.
pub translate-map_big :
    (fa : FrameAllocator) (vendor : VendorId) (g h : Grown fa.State) (va pa flags w : ℕ)
    → map_big fa vendor g va pa flags ≡ done h
    → pa < 2 ^ 56
    → flags < 2 ^ 8
    → w < 2 ^ 64
    → index_0 w ≡ va / 2 ^ 30
    → page_of_addr pa ≢ g.table.entries
    → valid (g.machine.cells (page_of_addr pa) (index_1 w)) ≡ false
    → translate_in h w ≡ none
translate-map_big fa vendor g h va pa flags w e hp hf hw at ne content =
    translate-entry_at h w hw ∙ ap (Option.map (target w)) nothing
  where
    nothing : entry_at h w ≡ none
    nothing =
        ap (λ s. entry_at s w) (big_entry fa vendor g h va pa flags e)
        ∙ ground (arith, leaf_entry_lem vendor va (page_of_addr pa) flags (omega arith) hf)
