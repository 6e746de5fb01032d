-- ===== src/Memory/Paging/Extend.antt =====
-- `find_pte_create` of src/memory/paging.rs keeps the tree of tables and every translation.
use ark_rust_kernel.Prelude.{
  ℕ, ◌+◌, ◌^◌, ◌<◌, ◌≡◌, ◌∙◌, refl, arith, Bool, true, false, ◌∷◌, Option, none, some, Bool-cases,
  Option-cases, ℕ_discrete, inl, inr, done,
}
use mathlib.Core.Path.{subst}
use native.Mathlib.Nat.{add-zero}
use ark_rust_kernel.Memory.Frames.{FrameAllocator, phy_page_alloc}
use ark_rust_kernel.Memory.Entry.{entry_page_id, valid}
use ark_rust_kernel.Memory.Paging.{Grown, ensure}
use ark_rust_kernel.Memory.Paging.Tree.{Node, top, child, IsTree, lookup}
use ark_rust_kernel.Memory.Paging.Create.{entry_new-v, linked, adopt, linked-Links, lookup-linked}

-- The tree of `h` contains that of `g`, and translates the same.
pub record Extends (fa : FrameAllocator) (big : ℕ → Bool) (owner : ℕ → Option Node)
    (g : Grown fa.State) (owner' : ℕ → Option Node) (h : Grown fa.State) : Type 0 where
  pub tree : IsTree fa big owner' h
  pub keeps : (q : ℕ) (n : Node) → owner q ≡ some n → owner' q ≡ some n
  pub root_same : h.table.entries ≡ g.table.entries
  -- Valid entries of tables stay as they are.
  pub stays :
      (q j : ℕ) (n : Node)
      → owner q ≡ some n
      → valid (g.machine.cells q j) ≡ true
      → h.machine.cells q j ≡ g.machine.cells q j
  pub same :
      (a b d : ℕ)
      → big a ≡ false
      → lookup h.machine.cells h.table.entries a b d ≡ lookup g.machine.cells g.table.entries a b d

-- The entry at `(p, i)` of `h` leads to the table `k`.
abbrev pub LeadsTo :
    (fa : FrameAllocator) (big : ℕ → Bool) (owner : ℕ → Option Node) (g : Grown fa.State)
    → ℕ
    → ℕ
    → Node
    → Grown fa.State
    → Type 0
LeadsTo fa big owner g p i k h =
    (owner' : ℕ → Option Node) × Extends fa big owner g owner' h
    × (valid (h.machine.cells p i) ≡ true)
    × (owner' (entry_page_id (h.machine.cells p i)) ≡ some k)

module _ (fa : FrameAllocator) (big : ℕ → Bool) where
  pub Extends-refl :
      (owner : ℕ → Option Node) (g : Grown fa.State)
      → IsTree fa big owner g
      → Extends fa big owner g owner g
  Extends-refl owner g t = record {
    tree = t;
    keeps = λ q n h. h;
    root_same = refl;
    stays = λ q j n h v. refl;
    same = λ a b d s. refl;
  }

  pub Extends-trans :
      {o o' o'' : ℕ → Option Node} {g g' g'' : Grown fa.State}
      → Extends fa big o g o' g'
      → Extends fa big o' g' o'' g''
      → Extends fa big o g o'' g''
  Extends-trans x y = record {
    tree = y.tree;
    keeps = λ q n h. y.keeps q n (x.keeps q n h);
    root_same = y.root_same ∙ x.root_same;
    stays =
        λ q j n h v. y.stays q j n (x.keeps q n h) (rw (x.stays q j n h v) v) ∙ x.stays q j n h v;
    same = λ a b d s. y.same a b d s ∙ x.same a b d s;
  }

  -- `g` with the new table `page` linked at `(p, i)`.
  abbrev pub link_state : Grown fa.State → ℕ → ℕ → ℕ → fa.State → Grown fa.State
  link_state g p i page s = record {
    machine = record { cells = linked g.machine.cells p i page; frames = s };
    table = record (g.table) { pages = page ∷ g.table.pages };
  }

  module _ (owner : ℕ → Option Node) (g : Grown fa.State) (p i : ℕ) (n k : Node)
      (t : IsTree fa big owner g) (here : owner p ≡ some n) (below : child big n i ≡ some k) where
    not_owned :
        (page : ℕ) (s : fa.State) → fa.alloc g.machine.frames 1 ≡ some (page, s) → owner page ≡ none
    not_owned page s e = elim (Option-cases (owner page)) [
      | inl h ↦ h
      | inr (m, h) ↦ absurd (
          fa.alloc_fresh g.machine.frames 1 page 0 s e (omega arith)
            (rw add-zero (t.used page m h)))
    ]

    kept :
        (page : ℕ)
        → owner page ≡ none
        → (q : ℕ) (m : Node) → owner q ≡ some m
        → adopt owner page k q ≡ some m
    kept page fresh q m h = ground arith

    linked-LeadsTo :
        (page : ℕ) (s : fa.State)
        → fa.alloc g.machine.frames 1 ≡ some (page, s)
        → valid (g.machine.cells p i) ≡ false
        → LeadsTo fa big owner g p i k (link_state g p i page s)
    linked-LeadsTo page s e absent =
        let fresh = not_owned page s e in
        let fits : page < 2 ^ 44 =
          omega (arith, fa.alloc_fits g.machine.frames 1 page 0 s e (omega arith)) in
        let c = g.machine.cells in
        (
          adopt owner page k,
          record {
            tree = record {
              root = kept page fresh g.table.entries top t.root;
              used = λ q m h. elim (ℕ_discrete q page) [
                | yes it ↦
                    subst (fa.Used s) (let q_is : page + 0 ≡ q = omega arith in q_is)
                      (fa.alloc_used g.machine.frames 1 page 0 s e (omega arith))
                | no other ↦
                    fa.alloc_keeps g.machine.frames 1 page q s e (t.used q m (ground arith))
              ];
              links = linked-Links big owner c p i page n k t.links here below absent fresh fits;
            };
            keeps = kept page fresh;
            root_same = refl;
            stays = λ q j m h v. ground (arith, h, v, fresh);
            same = λ a b d free.
                lookup-linked big owner c p i page n k t.links here below absent fresh fits
                  g.table.entries a b d t.root free;
          },
          ground (arith, entry_new-v page fits),
          ground (arith, entry_new-v page fits),
        )

    pub ensure-LeadsTo :
        {g' : Grown fa.State} → ensure fa g p i ≡ done g' → LeadsTo fa big owner g p i k g'
    unfolding ensure phy_page_alloc
    ensure-LeadsTo {g'} e = elim (Bool-cases (valid (g.machine.cells p i))) [
      | inl present ↦
          subst (LeadsTo fa big owner g p i k) (let same : g ≡ g' = ground arith in same)
            (owner, Extends-refl owner g t, present, t.links p i n k here below present)
      | inr absent ↦ elim (Option-cases (fa.alloc g.machine.frames 1)) [
        | inl full ↦ absurd (ground arith)
        | inr ((page, s), found) ↦
            subst (LeadsTo fa big owner g p i k)
              (let same : link_state g p i page s ≡ g' = ground arith in same)
              (linked-LeadsTo page s found absent)
      ]
    ]
