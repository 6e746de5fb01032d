-- ===== src/Memory/Paging/Tree.antt =====
-- The shape of the page tables of src/memory/paging.rs: which page is which table. A root entry of
-- `map_big` maps a gigabyte and leads to no table; `big` tells which root entries these are.
use ark_rust_kernel.Prelude.{ℕ, ◌≡◌, Bool, true, Option, none, some, if◌then◌else◌}
use ark_rust_kernel.Memory.Frames.{FrameAllocator}
use ark_rust_kernel.Memory.Entry.{entry_page_id, valid}
use ark_rust_kernel.Memory.Paging.{Cells, Grown}

-- A table, by the indexes that lead to it from the root.
pub data Node : Type 0 where
  top : Node
  mid : ℕ → Node
  low : ℕ → ℕ → Node

abbrev pub child : (ℕ → Bool) → Node → ℕ → Option Node
child big top i = if big i then none else some (mid i)
child big (mid a) i = some (low a i)
child big (low a b) i = none

-- Every valid entry that should lead to a table leads to the table of that place, so no page
-- serves in two places.
abbrev pub Links : (ℕ → Bool) → (ℕ → Option Node) → Cells → Type 0
Links big owner c =
    (p i : ℕ) (n k : Node)
    → owner p ≡ some n
    → child big n i ≡ some k
    → valid (c p i) ≡ true
    → owner (entry_page_id (c p i)) ≡ some k

pub record IsTree (fa : FrameAllocator) (big : ℕ → Bool) (owner : ℕ → Option Node)
    (g : Grown fa.State) : Type 0 where
  pub root : owner g.table.entries ≡ some top
  pub used : (p : ℕ) (n : Node) → owner p ≡ some n → fa.Used g.machine.frames p
  pub links : Links big owner g.machine.cells

-- The valid entry at the end of a walk from the root by three indexes.
abbrev pub lookup : Cells → ℕ → ℕ → ℕ → ℕ → Option ℕ
lookup c root a b d =
    if valid (c root a)
    then (if valid (c (entry_page_id (c root a)) b)
        then (if valid (c (entry_page_id (c (entry_page_id (c root a)) b)) d)
            then some (c (entry_page_id (c (entry_page_id (c root a)) b)) d)
            else none)
        else none)
    else none
