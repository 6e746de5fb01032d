-- ===== src/Memory/Paging/Total.antt =====
-- `map` of src/memory/paging.rs succeeds where nothing is mapped and two frames can be had.
use ark_rust_kernel.Prelude.{
  ℕ, ◌/◌, ◌^◌, ◌<◌, ◌≡◌, ◌∙◌, ap, refl, arith, Bool, false, [], ◌∷◌, Option, none, some, ◌⊎◌,
  Bool-cases, inl, inr, done, unwrap, ◌>>=◌,
}
use ark_rust_kernel.Memory.Address.{VirtAddr, page_of_addr}
use ark_rust_kernel.Memory.Address.Indexes.{get_pte_indexes_lem}
use ark_rust_kernel.Memory.Frames.{FrameAllocator, write_cell, phy_page_alloc}
use ark_rust_kernel.Memory.Entry.{VendorId, entry_page_id, valid, leaf_entry}
use ark_rust_kernel.Memory.Paging.{
  Cells, Place, Grown, ensure, create_loop, find_pte_create, set_pte, map,
}
use ark_rust_kernel.Memory.Paging.Tree.{Node, IsTree, lookup}
use ark_rust_kernel.Memory.Paging.Walk.{index_0, index_1, index_2, place_of}
use ark_rust_kernel.Memory.Paging.Extend.{link_state}
use ark_rust_kernel.Memory.Paging.Leaf.{Created, create_loop-Created}
use ark_rust_kernel.Memory.Paging.Map.{entry_at}
use ark_rust_kernel.Memory.Paging.Translate.{translate_in, translate-entry_at}

-- One frame can be had, and another one after it.
pub record TwoFrames (fa : FrameAllocator) (s : fa.State) : Type 0 where
  pub first : ℕ
  pub then_state : fa.State
  pub first_is : fa.alloc s 1 ≡ some (first, then_state)
  pub second : ℕ
  pub last_state : fa.State
  pub second_is : fa.alloc then_state 1 ≡ some (second, last_state)

module _ (fa : FrameAllocator) where
  pub ensure_total :
      (g : Grown fa.State) (p i page : ℕ) (s : fa.State)
      → fa.alloc g.machine.frames 1 ≡ some (page, s)
      → (h : Grown fa.State) × (ensure fa g p i ≡ done h)
        × ((h.machine.frames ≡ g.machine.frames) ⊎ (h.machine.frames ≡ s))
  unfolding ensure phy_page_alloc
  ensure_total g p i page s e = elim (Bool-cases (valid (g.machine.cells p i))) [
    | inl present ↦ (g, ground arith, inl refl)
    | inr absent ↦ (link_state fa (λ x. false) g p i page s, rw (absent, e), inr refl)
  ]

  -- After the first step there is still a frame for the second.
  frame_left :
      (g h : Grown fa.State) (f : TwoFrames fa g.machine.frames)
      → (h.machine.frames ≡ g.machine.frames) ⊎ (h.machine.frames ≡ f.then_state)
      → (page : ℕ) × (s : fa.State) × (fa.alloc h.machine.frames 1 ≡ some (page, s))
  frame_left g h f (inl e) = (f.first, f.then_state, rw e f.first_is)
  frame_left g h f (inr e) = (f.second, f.last_state, rw e f.second_is)

  create_total :
      (g : Grown fa.State) (a b d : ℕ)
      → TwoFrames fa g.machine.frames
      → (r : Option Place × Grown fa.State) × (create_loop fa g g.table.entries 0 (a ∷ b ∷ d ∷ [])
          ≡ done r)
  unfolding create_loop
  create_total g a b d f =
      let (g1, e1, fr) = ensure_total g g.table.entries a f.first f.then_state f.first_is in
      let (page, s, e) = frame_left g g1 f fr in
      let (g2, e2, fr2) =
        ensure_total g1 (entry_page_id (g1.machine.cells g.table.entries a)) b page s e in
      let p1 = entry_page_id (g1.machine.cells g.table.entries a) in
      ((some (entry_page_id (g2.machine.cells p1 b), d), g2), rw (e1, e2))

walk_to_nothing :
    (c : Cells) (root a b d q : ℕ)
    → place_of c root a b d ≡ some (q, d)
    → lookup c root a b d ≡ none
    → valid (c q d) ≡ false
walk_to_nothing c root a b d q e v = ground arith

untranslated :
    {S : Type 0} (g : Grown S) (va : VirtAddr)
    → va < 2 ^ 64
    → translate_in g va ≡ none
    → entry_at g va ≡ none
untranslated g va h e = ground (arith, translate-entry_at g va h)

module _ (fa : FrameAllocator) (vendor : VendorId) (big : ℕ → Bool) (owner : ℕ → Option Node)
    (g : Grown fa.State) (va pa flags : ℕ) (t : IsTree fa big owner g)
    (free : big (index_0 va) ≡ false) where
  set_pte_total :
      (found : Option Place) (middle : Grown fa.State) (page d : ℕ)
      → found ≡ some (page, d)
      → valid (middle.machine.cells page d) ≡ false
      → (h : Grown fa.State) × ((unwrap found >>= λ place.
            set_pte vendor middle.machine.cells place pa va flags >>= λ c.
            done (record middle { machine = record (middle.machine) { cells = c } }))
          ≡ done h)
  unfolding set_pte
  set_pte_total found middle page d at v = (
    record middle {
      machine = record (middle.machine) {
        cells =
            write_cell middle.machine.cells page d (leaf_entry vendor va (page_of_addr pa) flags);
      };
    },
    rw (at, v),
  )

  place_free :
      (found : Option Place) (middle : Grown fa.State)
      (c : Created fa big owner g (index_0 va) (index_1 va) (index_2 va) found middle)
      → entry_at g va ≡ none
      → valid (middle.machine.cells c.page (index_2 va)) ≡ false
  place_free found middle c e =
      walk_to_nothing middle.machine.cells middle.table.entries (index_0 va) (index_1 va)
        (index_2 va) c.page c.walk (c.extends.same (index_0 va) (index_1 va) (index_2 va) free ∙ e)

  find_total :
      TwoFrames fa g.machine.frames
      → (r : Option Place × Grown fa.State) × (find_pte_create fa g (page_of_addr va) ≡ done r)
        × Created fa big owner g (index_0 va) (index_1 va) (index_2 va) (r.0) (r.1)
  unfolding find_pte_create
  find_total f =
      let (r, e) = create_total fa g (index_0 va) (index_1 va) (index_2 va) f in
      (
        r,
        ap (create_loop fa g g.table.entries 0) (get_pte_indexes_lem (va / 4096)) ∙ e,
        create_loop-Created fa big owner g (index_0 va) (index_1 va) (index_2 va) t free e,
      )

  -- `map` succeeds where nothing is mapped, outside the gigabytes of `map_big`, in page tables that
  -- are a tree, if two frames can be had for tables.
  pub map_total :
      va < 2 ^ 64
      → translate_in g va ≡ none
      → TwoFrames fa g.machine.frames
      → (h : Grown fa.State) × (map fa vendor g va pa flags ≡ done h)
  unfolding map
  map_total hv unmapped f =
      let (r, found, c) = find_total f in
      let v = place_free (r.0) (r.1) c (untranslated g va hv unmapped) in
      let (h, e) = set_pte_total (r.0) (r.1) c.page (index_2 va) c.found_is v in (h, rw found e)
