-- ===== src/Syscall/File/Dup.antt =====
-- `dup`, `dup3` and `close` of src/syscall/file.rs together.
use ark_rust_kernel.Prelude.{
  ℕ, zero, suc, ◌+◌, ◌≤◌, ◌<◌, ◌≡◌, ◌∙◌, refl, sym, ap, arith, List, [], ◌∷◌, ◌++◌, Option, none,
  some, Bool, true, false, ◌==◌, if◌then◌else◌, Result, ok, done, panic, length, get_elem?, take,
  Option-cases, Bool-cases, inl, inr, get_elem?-set_self, get_elem?-set_ne, get_elem?-defined,
}
use ark_rust_kernel.Syscall.Error.{SyscallError}
use ark_rust_kernel.Syscall.File.{
  Files, at_fdcwd, clone_arc, drop_arc, put, first_free, allocate_fd, get_file_from_fd, close, dup,
  close_old, dup3,
}

-- A slot of a table that may be too short: nothing is there.
abbrev pub slot : Files → ℕ → Option ℕ
slot s fd = elim (get_elem? s.files fd) [ some (some f) ↦ some f | _ ↦ none ]

first_free-some : (l : List (Option ℕ)) (i : ℕ) → first_free l ≡ some i → get_elem? l i ≡ some none
first_free-some [] i e = cc
first_free-some (none ∷ rest) i e = ground (arith, e)
first_free-some (some f ∷ rest) zero e = ground (arith, e)
first_free-some (some f ∷ rest) (suc i) e = ground (arith, first_free-some rest i)

get-append :
    (l : List (Option ℕ)) (q : ℕ)
    → get_elem? (l ++ (none ∷ [])) q ≡ (if q == length l then some none else get_elem? l q)
get-append [] zero = refl
get-append [] (suc q) = ground arith
get-append (x ∷ l) zero = ground arith
get-append (x ∷ l) (suc q) = ground (arith, get-append l q)

-- Every slot holds a file.
abbrev pub all_taken : List (Option ℕ) → Bool
all_taken [] = true
all_taken (none ∷ rest) = false
all_taken (some f ∷ rest) = all_taken rest

first_free-least :
    (l : List (Option ℕ)) (i : ℕ) → first_free l ≡ some i → all_taken (take i l) ≡ true
first_free-least [] i e = cc
first_free-least (none ∷ rest) zero e = refl
first_free-least (none ∷ rest) (suc i) e = cc
first_free-least (some f ∷ rest) zero e = refl
first_free-least (some f ∷ rest) (suc i) e = first_free-least rest i (ground (arith, e))

all_full : (l : List (Option ℕ)) → first_free l ≡ none → all_taken (take (length l) l) ≡ true
all_full [] e = refl
all_full (none ∷ rest) e = cc
all_full (some f ∷ rest) e = all_full rest (ground (arith, e))

-- What `allocate_fd` gives: a slot with nothing in it; what the others hold stays.
pub record Allocated (s : Files) (fd : ℕ) (t : Files) : Type 0 where
  pub empty : get_elem? t.files fd ≡ some none
  pub kept : (q : ℕ) → slot t q ≡ slot s q
  pub least : all_taken (take fd s.files) ≡ true
  pub strong : t.strong ≡ s.strong
  pub closed : t.closed ≡ s.closed

allocated : (s : Files) → Allocated s (allocate_fd s).0 (allocate_fd s).1
unfolding allocate_fd
allocated s = elim (Option-cases (first_free s.files)) [
  | inr (i, found) ↦ record {
    empty = ground (arith, found, first_free-some s.files i);
    kept = λ q. ground (arith, found);
    least = ground (arith, found, first_free-least s.files i found);
    strong = ground (arith, found);
    closed = ground (arith, found);
  }
  | inl full ↦ record {
    empty = ground (arith, full, get-append s.files (length s.files));
    kept = λ q. ground (arith, full, get-append s.files q, past s.files q);
    least = ground (arith, full, all_full s.files full);
    strong = ground (arith, full);
    closed = ground (arith, full);
  }
]
  where
    past : (l : List (Option ℕ)) (q : ℕ) → (q == length l) ≡ true → get_elem? l q ≡ none
    past [] q e = refl
    past (x ∷ l) zero e = absurd (ground arith)
    past (x ∷ l) (suc q) e = ground (arith, past l q)

-- A write of an empty slot.
put_empty :
    (t : Files) (fd f q : ℕ)
    → get_elem? t.files fd ≡ some none
    → (slot (put t fd (some f)) q ≡ (if q == fd then some f else slot t q))
      × ((put t fd (some f)).strong ≡ t.strong)
      × ((put t fd (some f)).closed ≡ t.closed)
put_empty t fd f q e = elim (Bool-cases (q == fd)) [
  | inl same ↦ (
    ground (arith, e, get_elem?-set_self t.files fd (some f) (get_elem?-defined t.files fd none e)),
    ground (arith, e),
    ground (arith, e),
  )
  | inr differs ↦ (
    ground (arith, e, get_elem?-set_ne t.files {i = fd} {j = q} (some f) (λ h. ground arith)),
    ground (arith, e),
    ground (arith, e),
  )
]

outside : (l : List (Option ℕ)) (n : ℕ) → length l ≤ n → get_elem? l n ≡ none
outside [] n h = refl
outside (x ∷ l) zero h = absurd (omega arith)
outside (x ∷ l) (suc n) h = outside l n (omega arith)

module _ (closes : ℕ → Bool) (open_cwd : Files → Result SyscallError (ℕ × Files)) (s : Files)
    (fd f : ℕ) (present : get_elem? s.files fd ≡ some (some f))
    (real : (fd == at_fdcwd) ≡ false) where
  cloned : get_file_from_fd closes open_cwd s fd ≡ ok (f, clone_arc s f)
  unfolding get_file_from_fd
  cloned = ground (arith, present)

  -- `dup` gives the least descriptor that is free, a new one if all are taken; it leads to the same file, whose
  -- strong count grows by one, and no other descriptor, count or file changes.
  pub dup_shares :
      (q x : ℕ)
      → (n : ℕ) × (t : Files) × (dup closes open_cwd s fd ≡ (ok n, t))
        × (slot s n ≡ none)
        × (all_taken (take n s.files) ≡ true)
        × (slot t q ≡ (if q == n then some f else slot s q))
        × (t.strong x ≡ (if x == f then s.strong x + 1 else s.strong x))
        × (t.closed ≡ s.closed)
  unfolding dup
  dup_shares q x =
      let a = allocated (clone_arc s f) in
      let n = (allocate_fd (clone_arc s f)).0 in
      let t = (allocate_fd (clone_arc s f)).1 in
      let (slots, strong, closed) = put_empty t n f q a.empty in
      (
        n,
        put t n (some f),
        ground (arith, cloned),
        ground (arith, sym (a.kept n), a.empty),
        a.least,
        slots ∙ ap (λ o. if q == n then some f else o) (a.kept q),
        ap (λ g. g x) (strong ∙ a.strong),
        closed ∙ a.closed,
      )

  -- To close one of several descriptors of a file closes only the descriptor: the file stays open
  -- and its strong count goes down by one.
  pub close_shared :
      (q : ℕ)
      → 1 < s.strong f
      → (t : Files) × (close closes open_cwd s fd ≡ (ok 0, t))
        × (slot t q ≡ (if q == fd then none else slot s q))
        × (t.strong f + 1 ≡ s.strong f)
        × (t.closed ≡ s.closed)
  unfolding close
  close_shared q more = (
    put s fd none,
    ground (arith, present),
    elim (Bool-cases (q == fd)) [
      | inl same ↦ ground (
        arith,
        present,
        get_elem?-set_self s.files fd none (get_elem?-defined s.files fd (some f) present),
      )
      | inr differs ↦
          ground
            (arith, present, get_elem?-set_ne s.files {i = fd} {j = q} none (λ h. ground arith))
    ],
    ground (arith, present),
    ground (arith, present),
  )

  -- `dup3` to a descriptor beyond the table panics.
  pub dup3_beyond_panics :
      (n : ℕ) → length s.files ≤ n → (n == at_fdcwd) ≡ false → dup3 closes open_cwd s fd n ≡ panic
  unfolding dup3 close_old get_file_from_fd
  dup3_beyond_panics n beyond cwd = ground (arith, present, outside s.files n beyond)

  -- `dup3` to a descriptor of another file closes that file, even if other descriptors lead to it.
  pub dup3_closes_shared :
      (n g : ℕ)
      → get_elem? s.files n ≡ some (some g)
      → (n == at_fdcwd) ≡ false
      → closes g ≡ true
      → (t : Files) × (dup3 closes open_cwd s fd n ≡ done (ok n, t)) × (t.closed g ≡ true)
  unfolding dup3 close_old get_file_from_fd
  dup3_closes_shared n g there cwd can =
      let inside = get_elem?-defined s.files n (some g) there in
      let twice = clone_arc (clone_arc s f) g in
      let t : Files =
        drop_arc (record twice { closed = λ x. if x == g then true else s.closed x }) g in
      (put t n (some f), ground (arith, present, there, inside), ground (arith, there))
