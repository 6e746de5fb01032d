-- ===== src/Memory/Paging/Map.antt =====
-- `map`, `unmap` and `translate` of src/memory/paging.rs: the mapping that a page table stands for.
use ark_rust_kernel.Prelude.{
  ℕ, ◌/◌, ◌^◌, ◌<◌, ◌≡◌, ◌≢◌, ◌∙◌, ap, sym, arith, Bool, false, Option, some, ◌⊎◌, done, unwrap,
  ◌>>=◌, >>=-eq-done,
}
use mathlib.Core.Path.{subst}
use ark_rust_kernel.Memory.Address.{VirtAddr, page_of_addr}
use ark_rust_kernel.Memory.Address.Indexes.{get_pte_indexes_lem}
use ark_rust_kernel.Memory.Frames.{FrameAllocator, write_cell}
use ark_rust_kernel.Memory.Entry.{VendorId, valid, leaf_entry}
use ark_rust_kernel.Memory.Paging.{Place, Grown, create_loop, find_pte_create, set_pte, map}
use ark_rust_kernel.Memory.Paging.Tree.{Node, IsTree, lookup}
use ark_rust_kernel.Memory.Paging.Walk.{index_0, index_1, index_2}
use ark_rust_kernel.Memory.Paging.Leaf.{
  valid_entry, write_cell-Links, lookup-write_cell_self, lookup-write_cell_ne, Created,
  create_loop-Created,
}

-- What a page table says of an address.
abbrev pub entry_at : {S : Type 0} → Grown S → VirtAddr → Option ℕ
entry_at g va = lookup g.machine.cells g.table.entries (index_0 va) (index_1 va) (index_2 va)

-- Different pages of the 39-bit address space differ in an index.
pub indexes_differ :
    (v w : VirtAddr)
    → v < 2 ^ 39
    → w < 2 ^ 39
    → page_of_addr v ≢ page_of_addr w
    → (index_0 w ≢ index_0 v) ⊎ ((index_1 w ≢ index_1 v) ⊎ (index_2 w ≢ index_2 v))
indexes_differ v w hv hw ne = ground arith

module _ (fa : FrameAllocator) (vendor : VendorId) (big : ℕ → Bool) (owner : ℕ → Option Node)
    (g : Grown fa.State) (va pa flags : ℕ) (t : IsTree fa big owner g)
    (free : big (index_0 va) ≡ false) where
  -- What a successful `map` leaves, in terms of the tables that it made on the way.
  pub record Mapped (h : Grown fa.State) : Type 0 where
    pub middle : Grown fa.State
    pub found : Option Place
    pub created : Created fa big owner g (index_0 va) (index_1 va) (index_2 va) found middle
    pub was_free : valid (middle.machine.cells created.page (index_2 va)) ≡ false
    pub result : h ≡ record middle {
      machine = record (middle.machine) {
        cells =
            write_cell middle.machine.cells created.page
              (index_2 va)
              (leaf_entry vendor va (page_of_addr pa) flags);
      };
    }

  place_found :
      {found : Option Place} {middle : Grown fa.State}
      → find_pte_create fa g (page_of_addr va) ≡ done (found, middle)
      → Created fa big owner g (index_0 va) (index_1 va) (index_2 va) found middle
  unfolding find_pte_create
  place_found e =
      create_loop-Created fa big owner g (index_0 va) (index_1 va) (index_2 va) t free
        (ap (create_loop fa g g.table.entries 0) (sym (get_pte_indexes_lem (va / 4096))) ∙ e)

  entry_written :
      {found : Option Place} {h : Grown fa.State} (middle : Grown fa.State) (page d : ℕ)
      → found ≡ some (page, d)
      → (unwrap found >>= λ place. set_pte vendor middle.machine.cells place pa va flags >>= λ c.
          done (record middle { machine = record (middle.machine) { cells = c } }))
        ≡ done h
      → (valid (middle.machine.cells page d) ≡ false)
        × (h ≡ record middle {
          machine = record (middle.machine) {
            cells =
                write_cell middle.machine.cells page d
                  (leaf_entry vendor va (page_of_addr pa) flags);
          };
        })
  unfolding set_pte
  entry_written {found} {h} middle page d at e = (ground arith, ground arith)

  pub map-Mapped : {h : Grown fa.State} → map fa vendor g va pa flags ≡ done h → Mapped h
  unfolding map
  map-Mapped {h} e =
      let (r, created_e, rest) = >>=-eq-done (find_pte_create fa g (page_of_addr va)) _ e in
      let created = place_found created_e in
      let written = entry_written r.1 created.page (index_2 va) created.found_is rest in
      record {
        middle = r.1;
        found = r.0;
        created = created;
        was_free = written.0;
        result = written.1;
      }

  -- What the new tables and the entry mean for the walks.
  pub Mapped-self :
      {h : Grown fa.State} (m : Mapped h)
      → entry_at h va ≡ valid_entry (leaf_entry vendor va (page_of_addr pa) flags)
  Mapped-self {h} m =
      ap (λ s. entry_at s va) m.result
      ∙ lookup-write_cell_self big owner' cells root page (index_0 va) (index_1 va) (index_2 va) _
          tree.links is_low tree.root free walk
    where
      open m.created use {owner', page, is_low, walk, extends}
      open extends use {tree}
      open m.middle.machine use {cells}

      root : ℕ
      root = m.middle.table.entries

  pub Mapped-other :
      {h : Grown fa.State} (m : Mapped h) (w : VirtAddr)
      → big (index_0 w) ≡ false
      → (index_0 w ≢ index_0 va) ⊎ ((index_1 w ≢ index_1 va) ⊎ (index_2 w ≢ index_2 va))
      → entry_at h w ≡ entry_at g w
  Mapped-other {h} m w fw ne =
      ap (λ s. entry_at s w) m.result
      ∙ lookup-write_cell_ne big owner' cells root page (index_0 va) (index_1 va) (index_2 va) _
          tree.links is_low (index_0 w) (index_1 w) (index_2 w) tree.root fw ne
      ∙ same (index_0 w) (index_1 w) (index_2 w) fw
    where
      open m.created use {owner', page, is_low, walk, extends}
      open extends use {tree, same}
      open m.middle.machine use {cells}

      root : ℕ
      root = m.middle.table.entries

  pub Mapped-IsTree :
      {h : Grown fa.State} (m : Mapped h) → (o : ℕ → Option Node) × IsTree fa big o h
  Mapped-IsTree {h} m = (
    owner',
    subst (IsTree fa big owner') (sym m.result) (record {
      root = tree.root;
      used = tree.used;
      links =
          write_cell-Links big owner' cells m.middle.table.entries page (index_0 va) (index_1 va)
            (index_2 va) _ tree.links is_low;
    }),
  )
    where
      open m.created use {owner', page, is_low, extends}
      open extends use {tree}
      open m.middle.machine use {cells}
