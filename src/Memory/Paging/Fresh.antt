-- ===== src/Memory/Paging/Fresh.antt =====
-- Where the tree of tables begins: `PageTable::new` and `map_big` of src/memory/paging.rs.
use ark_rust_kernel.Prelude.{
  ℕ, ◌+◌, ◌/◌, ◌^◌, ◌≡◌, sym, arith, Bool, false, ◌||◌, [], ◌∷◌, Option, none, some, ◌==◌,
  if◌then◌else◌, done, Option-cases, inl, inr,
}
use mathlib.Core.Path.{subst}
use ark_rust_kernel.Memory.Frames.{FrameAllocator, Machine, write_cell, zero_page, phy_page_alloc}
use ark_rust_kernel.Memory.Entry.{VendorId}
use ark_rust_kernel.Memory.Paging.{Cells, Grown, new, map_big}
use ark_rust_kernel.Memory.Paging.Tree.{Node, top, mid, low, Links, IsTree}
use ark_rust_kernel.Memory.Paging.Create.{valid-zero}
use ark_rust_kernel.Memory.Paging.Big.{big_entry}

abbrev only_root : ℕ → ℕ → Option Node
only_root page q = if q == page then some top else none

abbrev fresh_state : {S : Type 0} → Machine S → ℕ → S → Grown S
fresh_state m page s = record {
  machine = record { cells = zero_page m.cells page; frames = s };
  table = record { entries = page; pages = page ∷ [] };
}

module _ (fa : FrameAllocator) (m : Machine fa.State) where
  fresh-IsTree :
      (page : ℕ) (s : fa.State)
      → fa.alloc m.frames 1 ≡ some (page, s)
      → IsTree fa (λ i. false) (only_root page) (fresh_state m page s)
  fresh-IsTree page s e = record {
    root = ground arith;
    used = λ q n h.
        subst (fa.Used s) (let q_is : page + 0 ≡ q = ground arith in q_is)
          (fa.alloc_used m.frames 1 page 0 s e (omega arith));
    links = λ p i n k h u v. absurd (ground (arith, valid-zero, h, v));
  }

  -- A new page table is a tree with one table.
  pub new-IsTree :
      {h : Grown fa.State} → new fa m ≡ done h → (o : ℕ → Option Node) × IsTree fa (λ i. false) o h
  unfolding new phy_page_alloc
  new-IsTree {h} e = elim (Option-cases (fa.alloc m.frames 1)) [
    | inl full ↦ absurd (ground arith)
    | inr ((page, s), found) ↦ (
      only_root page,
      subst (IsTree fa (λ i. false) (only_root page))
          (let same : fresh_state m page s ≡ h = ground arith in same) (fresh-IsTree page s found),
    )
  ]

big-Links :
    (big : ℕ → Bool) (owner : ℕ → Option Node) (c : Cells) (root x e : ℕ)
    → Links big owner c
    → owner root ≡ some top
    → Links (λ i. i == x || big i) owner (write_cell c root x e)
big-Links big owner c root x e links r p i top k o u v = ground (arith, links p i top k o)
big-Links big owner c root x e links r p i (mid a) k o u v = ground (arith, links p i (mid a) k o)
big-Links big owner c root x e links r p i (low a b) k o u v = cc

-- `map_big` keeps the page tables a tree, with one more root entry that leads to no table.
pub map_big-IsTree :
    (fa : FrameAllocator) (vendor : VendorId) (big : ℕ → Bool) (owner : ℕ → Option Node)
    (g h : Grown fa.State) (va pa flags : ℕ)
    → IsTree fa big owner g
    → map_big fa vendor g va pa flags ≡ done h
    → IsTree fa (λ i. i == va / 2 ^ 30 || big i) owner h
map_big-IsTree fa vendor big owner g h va pa flags t e =
    subst (IsTree fa (λ i. i == va / 2 ^ 30 || big i) owner)
      (sym (big_entry fa vendor g h va pa flags e))
      (record {
        root = t.root;
        used = t.used;
        links = big-Links big owner g.machine.cells g.table.entries (va / 2 ^ 30) _ t.links t.root;
      })
