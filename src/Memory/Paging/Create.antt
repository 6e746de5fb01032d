-- ===== src/Memory/Paging/Create.antt =====
-- What a new table does to the walks: `find_pte_create` of src/memory/paging.rs adds a cleared
-- page behind an entry that was not valid.
use ark_rust_kernel.Prelude.{
  ℕ, ◌^◌, ◌<◌, ◌≡◌, refl, arith, Bool, true, false, Option, none, some, ◌==◌, ==_iff, if◌then◌else◌,
}
use ark_rust_kernel.Memory.Frames.{write_cell, zero_page}
use ark_rust_kernel.Memory.PteFlag
use ark_rust_kernel.Memory.Entry.{entry_new, entry_page_id, valid}
use ark_rust_kernel.Memory.Entry.Fields.{entry_new_lem, entry_page_id_lem, valid_lem}
use ark_rust_kernel.Memory.Paging.{Cells}
use ark_rust_kernel.Memory.Paging.Tree.{Node, top, mid, low, child, Links, lookup}

pub valid-zero : valid 0 ≡ false
valid-zero = rw (valid_lem 0) refl

-- The entry that leads to a new table.
pub entry_new-v :
    (page : ℕ)
    → page < 2 ^ 44
    → (valid (entry_new page PteFlag.v) ≡ true) × (entry_page_id (entry_new page PteFlag.v) ≡ page)
entry_new-v page h =
    let e = entry_new_lem page 1 h (omega arith) in
    (
      rw (valid_lem (entry_new page 1)) ((==_iff _ 1).1 (omega arith)),
      omega (arith, entry_page_id_lem (entry_new page 1)),
    )

-- The cells after `page` has been cleared and linked at `(p, i)`.
abbrev pub linked : Cells → ℕ → ℕ → ℕ → Cells
linked c p i page = write_cell (zero_page c page) p i (entry_new page PteFlag.v)

-- The tables after that.
abbrev pub adopt : (ℕ → Option Node) → ℕ → Node → ℕ → Option Node
adopt owner page k q = if q == page then some k else owner q

module _ (big : ℕ → Bool) (owner : ℕ → Option Node) (c : Cells) (p i page : ℕ) (n k : Node)
    (links : Links big owner c) (here : owner p ≡ some n) (below : child big n i ≡ some k)
    (absent : valid (c p i) ≡ false) (fresh : owner page ≡ none) (fits : page < 2 ^ 44) where
  pub linked-Links : Links big (adopt owner page k) (linked c p i page)
  linked-Links q j m l h b v = ground (arith, valid-zero, entry_new-v page fits, links q j m l)

  pub lookup-linked :
      (root a b d : ℕ)
      → owner root ≡ some top
      → big a ≡ false
      → lookup (linked c p i page) root a b d ≡ lookup c root a b d
  lookup-linked root a b d r s = ground (
    arith,
    valid-zero,
    entry_new-v page fits,
    links root a top (mid a) r,
    links (entry_page_id (c root a)) b (mid a) (low a b),
  )
