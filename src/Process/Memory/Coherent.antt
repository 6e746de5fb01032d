-- ===== src/Process/Memory/Coherent.antt =====
-- The map of src/process/process_memory.rs is what the page table implements.
use ark_rust_kernel.Prelude.{
  ℕ, ◌+◌, ◌*◌, ◌^◌, ◌<◌, ◌≡◌, ◌≢◌, ◌∙◌, ap, refl, sym, arith, Bool, false, Option, none, some, ◌==◌,
  done, panic, >>=-eq-done, Option-cases, Bool-cases, inl, inr,
}
use mathlib.Core.Path.{subst}
use ark_rust_kernel.Prelude.Maps.{Map, insert, get, get-insert}
use ark_rust_kernel.Memory.Address.{addr_of_page, page_of_addr, VirtPageId}
use ark_rust_kernel.Memory.Frames.{FrameAllocator}
use ark_rust_kernel.Memory.Entry.{VendorId}
use ark_rust_kernel.Memory.Paging
use ark_rust_kernel.Memory.Paging.{Grown, translate}
use ark_rust_kernel.Memory.Paging.Walk.{index_0}
use ark_rust_kernel.Memory.Paging.Tree.{Node, IsTree}
use ark_rust_kernel.Memory.Paging.Translate.{
  translate_in, translate-map, translate-map_other, map-IsTree,
}
use ark_rust_kernel.Memory.Paging.Unmap.{map_mapped_panics}
use ark_rust_kernel.Process.Memory.{UserPage, World, grown, map}

-- What the map says of a byte: the page that holds it, and where.
abbrev pub byte_at : Map UserPage → VirtPageId → ℕ → Option ℕ
byte_at maps vpn offset = elim (get maps vpn) [
  | some u ↦ some (u.page * 4096 + offset)
  | none ↦ none
]

-- The user space lies below the kernel's gigabyte, which is the third entry of the root.
abbrev pub only_kernel : ℕ → Bool
only_kernel i = i == 2

pub record IsCoherent (fa : FrameAllocator) (w : World fa.State) : Type 0 where
  pub owner : ℕ → Option Node
  pub tree : IsTree fa only_kernel owner (grown w)
  pub agrees :
      (vpn offset : ℕ)
      → vpn < 2 ^ 19
      → offset < 4096
      → translate_in (grown w) (vpn * 4096 + offset) ≡ byte_at w.memory.maps vpn offset

-- Addresses of the user space
user_addr : (vpn : ℕ) → vpn < 2 ^ 19 → addr_of_page vpn ≡ vpn * 4096
user_addr vpn h = omega arith

pub user_index :
    (vpn offset : ℕ)
    → vpn < 2 ^ 19
    → offset < 4096
    → only_kernel (index_0 (vpn * 4096 + offset)) ≡ false
user_index vpn offset h k = ground arith

user_page : (vpn offset : ℕ) → offset < 4096 → page_of_addr (vpn * 4096 + offset) ≡ vpn
user_page vpn offset k = omega arith

present_byte :
    (maps : Map UserPage) (vpn offset : ℕ) → get maps vpn ≢ none → byte_at maps vpn offset ≢ none
present_byte maps vpn offset h e = elim (Option-cases (get maps vpn)) [
  | inl lost ↦ h lost
  | inr (u, found) ↦ absurd (ground arith)
]

module _ (fa : FrameAllocator) (vendor : VendorId) (w : World fa.State) (vpn page flags : ℕ)
    (user : vpn < 2 ^ 19) (fits : page < 2 ^ 44) (bits : flags < 2 ^ 8) (co : IsCoherent fa w) where
  free : only_kernel (index_0 (addr_of_page vpn)) ≡ false
  free = ground (arith, user_index vpn 0 user (omega arith))

  -- `map` of a page that the map has already panics: it is never replaced.
  pub map_twice_panics : get w.memory.maps vpn ≢ none → map fa vendor w vpn page flags ≡ panic
  unfolding map
  map_twice_panics present =
      rw
        (map_mapped_panics fa vendor only_kernel co.owner (grown w) (addr_of_page vpn)
          (addr_of_page page) flags co.tree free (omega arith)
          (λ e. present_byte w.memory.maps vpn 0 present (
            sym (co.agrees vpn 0 user (omega arith))
            ∙ ap (translate_in (grown w))
                (let same : vpn * 4096 + 0 ≡ addr_of_page vpn = omega arith in same)
            ∙ e)))
        refl

  module _ (g : Grown fa.State)
      (mapped : Paging.map fa vendor (grown w) (addr_of_page vpn) (addr_of_page page) flags
        ≡ done g) where
    inserted : Map UserPage
    inserted = insert w.memory.maps vpn (record { page = page; flags = flags })

    agrees_after :
        (q offset : ℕ)
        → q < 2 ^ 19
        → offset < 4096
        → translate_in g (q * 4096 + offset) ≡ byte_at inserted q offset
    unfolding inserted
    agrees_after q offset h k = elim (Bool-cases (q == vpn)) [
      | inl same ↦
          translate-map fa vendor only_kernel co.owner (grown w) g (addr_of_page vpn)
            (addr_of_page page) flags co.tree free mapped (q * 4096 + offset) (ground arith)
            (omega arith) (omega arith) bits
          ∙ ground (arith, get-insert w.memory.maps vpn q (record { page = page; flags = flags }))
      | inr other ↦
          translate-map_other fa vendor only_kernel co.owner (grown w) g (addr_of_page vpn)
            (addr_of_page page) flags co.tree free mapped (q * 4096 + offset) (omega arith)
            (omega arith) (ground arith) (user_index q offset h k)
          ∙ co.agrees q offset h k
          ∙ ground (arith, get-insert w.memory.maps vpn q (record { page = page; flags = flags }))
    ]

    after : World fa.State
    after = record {
      machine = g.machine;
      memory = record (w.memory) {
        page_table = g.table;
        maps = insert w.memory.maps vpn (record { page = page; flags = flags });
      };
    }

    after-IsCoherent : IsCoherent fa after
    unfolding after inserted
    after-IsCoherent =
        let (o, t) =
          map-IsTree fa vendor only_kernel co.owner (grown w) g (addr_of_page vpn)
            (addr_of_page page) flags co.tree free mapped in
        record { owner = o; tree = t; agrees = agrees_after }

    map_unmapped : get w.memory.maps vpn ≡ none → map fa vendor w vpn page flags ≡ done after
    unfolding map after
    map_unmapped unmapped = rw (mapped, unmapped) refl

  map-done :
      (w' : World fa.State)
      → map fa vendor w vpn page flags ≡ done w'
      → (g : Grown fa.State) × (Paging.map fa vendor
            (grown w)
            (addr_of_page vpn)
            (addr_of_page page)
            flags
          ≡ done g)
  unfolding map
  map-done w' e =
      let (g, mapped, _) =
        >>=-eq-done (Paging.map fa vendor (grown w) (addr_of_page vpn) (addr_of_page page) flags) _
          e in
      (g, mapped)

  map_from :
      (w' : World fa.State) (g : Grown fa.State)
      → map fa vendor w vpn page flags ≡ done w'
      → Paging.map fa vendor (grown w) (addr_of_page vpn) (addr_of_page page) flags ≡ done g
      → get w.memory.maps vpn ≡ none
      → IsCoherent fa w'
        × (w'.memory.maps ≡ insert w.memory.maps vpn (record { page = page; flags = flags }))
  unfolding after
  map_from w' g e mapped unmapped =
      let same : after g mapped ≡ w' = ground (arith, map_unmapped g mapped unmapped) in
      (subst (IsCoherent fa) same (after-IsCoherent g mapped), ap (λ x. x.memory.maps) (sym same))

  -- A successful `map` adds the page to the map, and the page table implements the new map:
  -- `translate` gives for every user address what the map says.
  pub map_refines :
      (w' : World fa.State)
      → map fa vendor w vpn page flags ≡ done w'
      → IsCoherent fa w'
        × (w'.memory.maps ≡ insert w.memory.maps vpn (record { page = page; flags = flags }))
  map_refines w' e = elim (Option-cases (get w.memory.maps vpn)) [
    | inr (u, found) ↦ absurd (ground (arith, map_twice_panics (λ n. cc), e))
    | inl unmapped ↦ let (g, mapped) = map-done w' e in map_from w' g e mapped unmapped
  ]
