-- ===== src/Memory/Paging/Leaf.antt =====
-- A write to an entry of the last level, the one change that `set_pte` and `unmap` of
-- src/memory/paging.rs make, and the loop of `find_pte_create` as three steps.
use ark_rust_kernel.Prelude.{
  ℕ, ◌≡◌, ◌≢◌, refl, arith, Bool, false, [], ◌∷◌, Option, none, some, ◌⊎◌, if◌then◌else◌, done,
  >>=-eq-done,
}
use mathlib.Core.Path.{subst}
use ark_rust_kernel.Memory.Frames.{FrameAllocator, write_cell}
use ark_rust_kernel.Memory.Entry.{entry_page_id, valid}
use ark_rust_kernel.Memory.Paging.{Cells, Place, Grown, ensure, create_loop}
use ark_rust_kernel.Memory.Paging.Tree.{Node, top, mid, low, Links, IsTree, lookup}
use ark_rust_kernel.Memory.Paging.Walk.{place_of}
use ark_rust_kernel.Memory.Paging.Extend.{Extends, LeadsTo, Extends-trans, ensure-LeadsTo}

abbrev pub valid_entry : ℕ → Option ℕ
valid_entry e = if valid e then some e else none

module _ (big : ℕ → Bool) (owner : ℕ → Option Node) (c : Cells) (root q a b d e : ℕ)
    (links : Links big owner c) (here : owner q ≡ some (low a b)) where
  pub write_cell-Links : Links big owner (write_cell c q d e)
  write_cell-Links p i n k h u v = ground (arith, links p i n k h u)

  pub lookup-write_cell_self :
      owner root ≡ some top
      → big a ≡ false
      → place_of c root a b d ≡ some (q, d)
      → lookup (write_cell c q d e) root a b d ≡ valid_entry e
  lookup-write_cell_self r free at =
      ground
        (arith, links root a top (mid a) r, links (entry_page_id (c root a)) b (mid a) (low a b))

  pub lookup-write_cell_ne :
      (x y z : ℕ)
      → owner root ≡ some top
      → big x ≡ false
      → (x ≢ a) ⊎ ((y ≢ b) ⊎ (z ≢ d))
      → lookup (write_cell c q d e) root x y z ≡ lookup c root x y z
  lookup-write_cell_ne x y z r free other =
      ground
        (arith, links root x top (mid x) r, links (entry_page_id (c root x)) y (mid x) (low x y))

-- What `find_pte_create` leaves: the place that a walk now finds, in a table of the last level.
pub record Created (fa : FrameAllocator) (big : ℕ → Bool) (owner : ℕ → Option Node)
    (g : Grown fa.State) (a b d : ℕ) (found : Option Place) (h : Grown fa.State) : Type 0 where
  pub owner' : ℕ → Option Node
  pub extends : Extends fa big owner g owner' h
  pub page : ℕ
  pub found_is : found ≡ some (page, d)
  pub is_low : owner' page ≡ some (low a b)
  pub walk : place_of h.machine.cells h.table.entries a b d ≡ some (page, d)

-- The second step, from the table of the middle level.
create_low :
    (fa : FrameAllocator) (big : ℕ → Bool) (owner : ℕ → Option Node) (g : Grown fa.State)
    (p a b d : ℕ)
    → IsTree fa big owner g
    → owner p ≡ some (mid a)
    → {found : Option Place} {h : Grown fa.State}
    → create_loop fa g p 1 (b ∷ d ∷ []) ≡ done (found, h)
    → (found ≡ some (entry_page_id (h.machine.cells p b), d))
      × LeadsTo fa big owner g p b (low a b) h
unfolding create_loop
create_low fa big owner g p a b d t here {found} {h} e =
    let (g', ensured, ends) = >>=-eq-done (ensure fa g p b) _ e in
    let same : g' ≡ h = ground arith in
    (
      ground arith,
      subst (LeadsTo fa big owner g p b (low a b)) same
          (ensure-LeadsTo fa big owner g p b (mid a) (low a b) t here refl ensured),
    )

module _ (fa : FrameAllocator) (big : ℕ → Bool) (owner : ℕ → Option Node) (g : Grown fa.State)
    (a b d : ℕ) (t : IsTree fa big owner g) (free : big a ≡ false) where
  create_top :
      {found : Option Place} {h : Grown fa.State}
      → create_loop fa g g.table.entries 0 (a ∷ b ∷ d ∷ []) ≡ done (found, h)
      → (g1 : Grown fa.State) × (ensure fa g g.table.entries a ≡ done g1)
        × (create_loop fa g1 (entry_page_id (g1.machine.cells g.table.entries a)) 1 (b ∷ d ∷ [])
            ≡ done (found, h))
  unfolding create_loop
  create_top e = >>=-eq-done (ensure fa g g.table.entries a) _ e

  both_steps :
      {found : Option Place} {h : Grown fa.State} (g1 : Grown fa.State)
      → LeadsTo fa big owner g g.table.entries a (mid a) g1
      → create_loop fa g1 (entry_page_id (g1.machine.cells g.table.entries a)) 1 (b ∷ d ∷ [])
        ≡ done (found, h)
      → Created fa big owner g a b d found h
  both_steps {found} {h} g1 (o1, x, v1, k1) rest = record {
    owner' = second.1.0;
    extends = Extends-trans fa big x second.1.1;
    page = entry_page_id (h.machine.cells p1 b);
    found_is = second.0;
    is_low = second.1.3;
    walk = ground (arith, second.1.1.root_same, x.root_same, first_entry, second.1.2, v1);
  }
    where
      p1 : ℕ
      p1 = entry_page_id (g1.machine.cells g.table.entries a)

      second :
          (found ≡ some (entry_page_id (h.machine.cells p1 b), d))
          × LeadsTo fa big o1 g1 p1 b (low a b) h
      second = create_low fa big o1 g1 p1 a b d x.tree k1 rest

      first_entry : h.machine.cells g.table.entries a ≡ g1.machine.cells g.table.entries a
      first_entry = second.1.1.stays g.table.entries a top (x.keeps _ top t.root) v1

  -- `find_pte_create` finds a place.
  pub create_loop-Created :
      {found : Option Place} {h : Grown fa.State}
      → create_loop fa g g.table.entries 0 (a ∷ b ∷ d ∷ []) ≡ done (found, h)
      → Created fa big owner g a b d found h
  create_loop-Created e =
      let (g1, ensured, rest) = create_top e in
      both_steps g1
        (ensure-LeadsTo fa big owner g g.table.entries a top (mid a) t t.root (rw free) ensured)
        rest
