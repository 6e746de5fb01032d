-- ===== src/Process/Pid/Fresh.antt =====
-- The ids that src/process/pid.rs has handed out and not taken back.
use ark_rust_kernel.Prelude.{
  ℕ, suc, ◌+◌, ◌^◌, ◌≤◌, ◌<◌, ◌≡◌, refl, arith, List, [], ◌∷◌, Bool, true, false, ◌&&◌, leb, ◌==◌,
  not, if◌then◌else◌, contains, done, panic,
}
use ark_rust_kernel.Process.Pid.{RecycleAllocator, alloc, free}

-- Free ids lie between 1 and `top`, and none stands twice.
abbrev pub distinct_upto : ℕ → List ℕ → Bool
distinct_upto top [] = true
distinct_upto top (x ∷ xs) = leb 1 x && leb x top && not (contains xs x) && distinct_upto top xs

abbrev pub is_valid : RecycleAllocator → Bool
is_valid r = distinct_upto r.max_id r.free_ids

abbrev pub live : RecycleAllocator → ℕ → Bool
live r id = leb 1 id && leb id r.max_id && not (contains r.free_ids id)

in_range :
    (top x : ℕ) (xs : List ℕ)
    → distinct_upto top xs ≡ true
    → contains xs x ≡ true
    → (1 ≤ x) × (x ≤ top)
in_range top x [] v h = absurd (cc)
in_range top x (y ∷ ys) v h = ground (arith, in_range top x ys)

distinct_grows :
    (top : ℕ) (xs : List ℕ) → distinct_upto top xs ≡ true → distinct_upto (top + 1) xs ≡ true
distinct_grows top [] v = refl
distinct_grows top (x ∷ xs) v = ground (arith, distinct_grows top xs)

module _ (m : ℕ) where
  alloc_of :
      (xs : List ℕ) (q : ℕ)
      → distinct_upto m xs ≡ true
      → m + 1 < 2 ^ 64
      → (live
            (record { max_id = m; free_ids = xs })
            (alloc (record { max_id = m; free_ids = xs })).0
          ≡ false)
        × (live (alloc (record { max_id = m; free_ids = xs })).1 q ≡ (
            if q == (alloc (record { max_id = m; free_ids = xs })).0
            then true
            else live (record { max_id = m; free_ids = xs }) q))
        × (is_valid (alloc (record { max_id = m; free_ids = xs })).1 ≡ true)
  unfolding alloc
  alloc_of [] q v h = (ground arith, ground arith, ground arith)
  alloc_of (x ∷ xs) q v h = (ground arith, ground arith, ground arith)

-- An id that is handed out was not live, is live from then on, and changes nothing for any other
-- id; the allocator stays valid.
pub alloc_live :
    (r : RecycleAllocator) (q : ℕ)
    → is_valid r ≡ true
    → r.max_id + 1 < 2 ^ 64
    → (live r (alloc r).0 ≡ false)
      × (live (alloc r).1 q ≡ (if q == (alloc r).0 then true else live r q))
      × (is_valid (alloc r).1 ≡ true)
alloc_live r q v h = alloc_of r.max_id r.free_ids q v h

-- A live id is taken back without a panic, is live no more, and changes nothing for any other id;
-- the allocator stays valid.
pub free-live :
    (r : RecycleAllocator) (id q : ℕ)
    → is_valid r ≡ true
    → live r id ≡ true
    → (s : RecycleAllocator) × (free r id ≡ done s)
      × (live s q ≡ (if q == id then false else live r q))
      × (is_valid s ≡ true)
unfolding free
free-live r id q v l =
    (record r { free_ids = id ∷ r.free_ids }, ground arith, ground arith, ground arith)

-- Only a live id, or 0, can be taken back; so an id that is taken back twice panics.
pub free_panics :
    (r : RecycleAllocator) (id : ℕ) → live r (suc id) ≡ false → free r (suc id) ≡ panic
unfolding free
free_panics r id l = ground arith
