-- ===== src/Memory/Paging/Tests.antt =====
-- Runs of the page tables of src/memory/paging.rs, and their theorems at such states.
use ark_rust_kernel.Prelude.{
  ℕ, ◌^◌, ◌<◌, ◌≡◌, ◌≢◌, ◌↔◌, refl, sym, ◌∙◌, arith, Bool, false, Option, none, some, [], ◌∷◌,
  Outcome, done, panic, ◌>>=◌, Outcome-cases, inl, inr,
}
use ark_rust_kernel.Memory.Address.{round_down, round_down_to}
use ark_rust_kernel.Memory.Frames.{bump, bump_alloc, zero_page, write_cell, Machine, phy_page_alloc}
use ark_rust_kernel.Memory.Entry.{
  unknown, entry_page_id, valid, leaf_entry, entry_new, prepare_flags,
}
use ark_rust_kernel.Memory.Paging.{
  Grown, new, map, map_big, unmap, translate, find_pte, find_pte_create, ensure, set_pte,
}
use ark_rust_kernel.Memory.Paging.Tree.{Node, IsTree}
use ark_rust_kernel.Memory.Paging.Create.{valid-zero}
use ark_rust_kernel.Memory.Paging.Translate.{
  translate_in, translate-entry_at, translate-map, translate-map_other, map-IsTree,
}
use ark_rust_kernel.Memory.Paging.Unmap.{
  with_cells, translate-unmap, translate-unmap_other, unmap_panics_iff,
}
use ark_rust_kernel.Memory.Paging.Total.{TwoFrames, map_total}
use ark_rust_kernel.Memory.Paging.Fresh.{new-IsTree}

abbrev none_big : ℕ → Bool
none_big i = false

-- A machine whose frames begin at page 5, and a new page table on it.
abbrev bare : Machine ℕ
bare = record { cells = λ p i. 0; frames = 5 }

abbrev fresh : Grown ℕ
fresh = record {
  machine = record { cells = zero_page bare.cells 5; frames = 6 };
  table = record { entries = 5; pages = 5 ∷ [] };
}

-- An address, and the page that it is mapped to: user, readable, writable.
abbrev va : ℕ
va = 0x4000_3010

abbrev pa : ℕ
pa = 0x8765_4321

abbrev user_rw : ℕ
user_rw = 22

-- A run of the code: a new page table, one page mapped, then two translations.
abbrev run_map : Outcome (Option ℕ × Option ℕ)
run_map = do
  g ← new bump bare
  h ← map bump (unknown 0) g va pa user_rw
  done (translate_in h 0x4000_3abc, translate_in h 0x4000_4000)

run_map_result : run_map ≡ done (some 0x8765_4abc, none)
unfolding new map find_pte_create ensure phy_page_alloc set_pte translate find_pte bump_alloc
    entry_page_id valid leaf_entry entry_new prepare_flags round_down round_down_to
run_map_result = refl

begins : new bump bare ≡ done fresh
unfolding new phy_page_alloc bump_alloc
begins = refl

-- Its tree, as `new-IsTree` gives it.
tree : (o : ℕ → Option Node) × IsTree bump none_big o fresh
tree = new-IsTree bump bare begins

unmapped : (w : ℕ) → w < 2 ^ 64 → translate_in fresh w ≡ none
unmapped w h = ground (arith, translate-entry_at fresh w h, valid-zero)

frames : TwoFrames bump 6
unfolding bump_alloc
frames = record {
  first = 6;
  then_state = 7;
  first_is = refl;
  second = 7;
  last_state = 8;
  second_is = refl;
}

-- The state after `map`, from the theorem that it succeeds.
map_total_example : (h : Grown ℕ) × (map bump (unknown 0) fresh va pa user_rw ≡ done h)
map_total_example =
    map_total bump (unknown 0) none_big tree.0 fresh va pa user_rw tree.1 refl (omega arith)
      (unmapped va (omega arith)) frames

after : (h : Grown ℕ) × (map bump (unknown 0) fresh va pa user_rw ≡ done h)
after =
    map_total bump (unknown 0) none_big tree.0 fresh va pa user_rw tree.1 refl (omega arith)
      (unmapped va (omega arith)) frames

translate-map_example : translate_in (after.0) 0x4000_3abc ≡ some 0x8765_4abc
translate-map_example =
    translate-map bump (unknown 0) none_big tree.0 fresh after.0 va pa user_rw tree.1 refl after.1
      0x4000_3abc refl (omega arith) (omega arith) (omega arith)

translate-map_other_example : translate_in (after.0) 0x4000_5000 ≡ translate_in fresh 0x4000_5000
translate-map_other_example =
    translate-map_other bump (unknown 0) none_big tree.0 fresh after.0 va pa user_rw tree.1 refl
      after.1 0x4000_5000 (omega arith) (omega arith) (omega arith) refl

after-IsTree : (o : ℕ → Option Node) × IsTree bump none_big o (after.0)
after-IsTree =
    map-IsTree bump (unknown 0) none_big tree.0 fresh after.0 va pa user_rw tree.1 refl after.1

map-IsTree_example : (o : ℕ → Option Node) × IsTree bump none_big o (after.0)
map-IsTree_example =
    map-IsTree bump (unknown 0) none_big tree.0 fresh after.0 va pa user_rw tree.1 refl after.1

is_mapped : translate_in (after.0) va ≢ none
is_mapped e = cc (
    sym e
    ∙ translate-map bump (unknown 0) none_big tree.0 fresh after.0 va pa user_rw tree.1 refl after.1
        va refl (omega arith) (omega arith) (omega arith))

unmap_panics_iff_example :
    (unmap fresh.machine.cells fresh.table va ≡ panic) ↔ (translate_in fresh va ≡ none)
unmap_panics_iff_example = unmap_panics_iff bump fresh va (omega arith)

-- What the machine is after `unmap`, from the theorem on when it panics.
unmap_result : (c : ℕ → ℕ → ℕ) × (unmap (after.0).machine.cells (after.0).table va ≡ done c)
unmap_result = elim (Outcome-cases (unmap (after.0).machine.cells (after.0).table va)) [
  | inl p ↦ absurd (is_mapped ((unmap_panics_iff bump (after.0) va (omega arith)).0 p))
  | inr r ↦ r
]

translate-unmap_example : translate_in (with_cells (after.0) (unmap_result.0)) 0x4000_3fff ≡ none
translate-unmap_example =
    translate-unmap bump none_big after-IsTree.0 after.0 va after-IsTree.1 refl unmap_result.1
      0x4000_3fff refl (omega arith)

translate-unmap_other_example :
    translate_in (with_cells (after.0) (unmap_result.0)) 0x4000_5000
    ≡ translate_in (after.0) 0x4000_5000
translate-unmap_other_example =
    translate-unmap_other bump none_big after-IsTree.0 after.0 va after-IsTree.1 refl unmap_result.1
      0x4000_5000 (omega arith) (omega arith) (omega arith) refl

-- The kernel's own gigabyte, as `init` maps it.
abbrev kernel : Grown ℕ
kernel = record fresh {
  machine = record {
    cells = write_cell (zero_page bare.cells 5) 5 2 (leaf_entry (unknown 0) 0x8000_0000 0x80000 46);
    frames = 6;
  };
}

kernel_mapped : map_big bump (unknown 0) fresh 0x8000_0000 0x8000_0000 46 ≡ done kernel
unfolding map_big set_pte valid
kernel_mapped = refl
