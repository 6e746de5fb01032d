-- ===== src/Process/Life/Fork/Files.antt =====
-- The descriptors that `fork` of src/process/process.rs leaves to the child.
use mathlib.Core.Path.{subst}
use ark_rust_kernel.Prelude.{
  ℕ, zero, suc, ◌+◌, ◌<◌, ◌≤◌, ◌≡◌, ◌≢◌, refl, ◌∙◌, ap, arith, List, [], ◌∷◌, ◌++◌, Option, none,
  some, true, leb, ◌==◌, if◌then◌else◌, ok, done, >>=-eq-done, length, set, length-append, leb→le,
  Bool-cases, inl, inr,
}
use ark_rust_kernel.Memory.Frames.{FrameAllocator}
use ark_rust_kernel.Memory.Entry.{VendorId}
use ark_rust_kernel.Process.Memory.{World}
use ark_rust_kernel.Process.Memory.Mmap.{copy_from}
use ark_rust_kernel.Process.Life.{ProcessData, OpenFiles, Family, update, getppid}
use ark_rust_kernel.Process.Life.Fork.{
  pad_loop, share, copy_files, forked, fork, parent_of, child_of,
}

-- The file that a descriptor leads to
abbrev pub opened : List (Option ℕ) → ℕ → Option ℕ
opened [] fd = none
opened (x ∷ xs) zero = x
opened (x ∷ xs) (suc fd) = opened xs fd

opened-append_none : (xs : List (Option ℕ)) (j : ℕ) → opened (xs ++ (none ∷ [])) j ≡ opened xs j
opened-append_none [] zero = refl
opened-append_none [] (suc j) = refl
opened-append_none (x ∷ xs) zero = refl
opened-append_none (x ∷ xs) (suc j) = opened-append_none xs j

opened-pad :
    (fuel : ℕ) (xs : List (Option ℕ)) (fd j : ℕ) → opened (pad_loop fuel xs fd) j ≡ opened xs j
unfolding pad_loop
opened-pad zero xs fd j = refl
opened-pad (suc fuel) xs fd j =
    ground (arith, opened-pad fuel (xs ++ (none ∷ [])) fd j, opened-append_none xs j)

-- The fuel of the loop is enough.
length-pad :
    (fuel : ℕ) (xs : List (Option ℕ)) (fd : ℕ)
    → fd < length xs + fuel
    → fd < length (pad_loop fuel xs fd)
unfolding pad_loop
length-pad zero xs fd h = omega arith
length-pad (suc fuel) xs fd h =
    ground (arith, length-pad fuel (xs ++ (none ∷ [])) fd, length-append xs (none ∷ []))

opened-set :
    (xs : List (Option ℕ)) (fd j : ℕ) (v : Option ℕ)
    → fd < length xs
    → opened (set xs fd v) j ≡ (if fd == j then v else opened xs j)
opened-set [] fd j v h = elim h [ ]
opened-set (x ∷ xs) zero zero v h = ground arith
opened-set (x ∷ xs) zero (suc j) v h = ground arith
opened-set (x ∷ xs) (suc fd) zero v h = ground arith
opened-set (x ∷ xs) (suc fd) (suc j) v h = opened-set xs fd j v (omega arith) ∙ ground arith

opened-put :
    (xs : List (Option ℕ)) (fd j f : ℕ)
    → opened (set (pad_loop (suc fd) xs fd) fd (some f)) j
      ≡ (if fd == j then some f else opened xs j)
opened-put xs fd j f = ground (
  arith,
  opened-set (pad_loop (suc fd) xs fd) fd j (some f),
  length-pad (suc fd) xs fd,
  opened-pad (suc fd) xs fd j,
)

abbrev Child : Type 0
Child = List (Option ℕ) × OpenFiles

-- What a round does to the child
abbrev copied : ℕ → ℕ → Child → Child
copied fd f c = if leb 3 fd then (set (pad_loop (suc fd) c.0 fd) fd (some f), share c.1 f) else c

copied_lem :
    (fd f j : ℕ) (c : Child)
    → opened (copied fd f c).0 j
      ≡ (if leb 3 fd then (if fd == j then some f else opened c.0 j) else opened c.0 j)
copied_lem fd f j c = elim (Bool-cases (leb 3 fd)) [
  | inl e ↦ rw (e) (opened-put c.0 fd j f)
  | inr e ↦ rw (e) refl
]

-- Below the descriptor that the loop is at, nothing changes any more.
copy_files_below :
    (k : ℕ) (rest : List (Option ℕ)) (c : Child) (j : ℕ)
    → j < k
    → opened (copy_files k rest c).0 j ≡ opened c.0 j
unfolding copy_files
copy_files_below k [] c j h = refl
copy_files_below k (none ∷ rest) c j h = copy_files_below (suc k) rest c j (omega arith)
copy_files_below k (some f ∷ rest) c j h =
    copy_files_below (suc k) rest (copied k f c) j (omega arith) ∙ copied_lem k f j c ∙ ground arith

-- The parent's file from descriptor 3 on, if there is one
abbrev inherited : ℕ → Option ℕ → Option ℕ → Option ℕ
inherited fd none own = own
inherited fd (some f) own = if leb 3 fd then some f else own

copy_files_from :
    (k : ℕ) (rest : List (Option ℕ)) (c : Child) (m : ℕ)
    → opened (copy_files k rest c).0 (m + k)
      ≡ inherited (m + k) (opened rest m) (opened c.0 (m + k))
unfolding copy_files
copy_files_from k [] c m = refl
copy_files_from k (none ∷ rest) c zero =
    let here : 0 + k ≡ k = omega arith in
    rw (here) (copy_files_below (suc k) rest c k (omega arith))
copy_files_from k (none ∷ rest) c (suc m) =
    let later : suc m + k ≡ m + suc k = omega arith in rw (later) (copy_files_from (suc k) rest c m)
copy_files_from k (some f ∷ rest) c zero =
    let here : 0 + k ≡ k = omega arith in
    rw (here) (
      copy_files_below (suc k) rest (copied k f c) k (omega arith)
      ∙ copied_lem k f k c
      ∙ ground arith)
copy_files_from k (some f ∷ rest) c (suc m) =
    let later : suc m + k ≡ m + suc k = omega arith in
    let far : opened (copied k f c).0 (m + suc k) ≡ opened c.0 (m + suc k) =
      copied_lem k f (m + suc k) c ∙ ground arith in
    rw (later) (
      copy_files_from (suc k) rest (copied k f c) m
      ∙ ap (inherited (m + suc k) (opened rest m)) far)

update_self : {A : Type 0} (f : ℕ → A) (k : ℕ) (a : A) → update f k a k ≡ a
update_self f k a = ground arith

update_other : {A : Type 0} (f : ℕ → A) (k j : ℕ) (a : A) → k ≢ j → update f k a j ≡ f j
update_other f k j a h = ground arith

inherited-none :
    (fd : ℕ) (theirs own : Option ℕ)
    → (3 ≤ fd → own ≡ none)
    → inherited fd theirs own ≡ (if leb 3 fd then theirs else own)
inherited-none fd none own h = elim (Bool-cases (leb 3 fd)) [
  | inl e ↦ rw (e) (h (leb→le 3 fd e))
  | inr e ↦ rw (e) refl
]
inherited-none fd (some f) own h = refl

module _ (fa : FrameAllocator) (vendor : VendorId) (s : Family fa.State) (parent child : ℕ)
    (made : ProcessData) where
  fork_inv :
      (pid : ℕ) (s' : Family fa.State)
      → fork fa vendor s parent child made ≡ done (pid, s')
      → (w : World fa.State) × (forked s parent child made w ≡ (pid, s'))
  unfolding fork
  fork_inv pid s' e =
      let (w, _, f) =
        >>=-eq-done
          (copy_from fa vendor (record { machine = s.machine; memory = made.memory })
            (s.procs parent).memory true)
          (λ w. done (forked s parent child made w)) e in
      (w, cc)

  child_files :
      (w : World fa.State) (fd : ℕ)
      → opened ((forked s parent child made w).1.procs child).files fd
        ≡ inherited fd (opened (s.procs parent).files fd) (opened made.files fd)
  child_files w fd =
      let at : fd + 0 ≡ fd = omega arith in
      ap (λ (d : ProcessData). opened d.files fd)
        (update_self (update s.procs parent (parent_of s parent child)) child
          (child_of s parent made w))
      ∙ subst
          (λ k.
            opened (copy_files 0 (s.procs parent).files (made.files, s.open_files)).0 k
            ≡ inherited k (opened (s.procs parent).files fd) (opened made.files k))
          at (copy_files_from 0 (s.procs parent).files (made.files, s.open_files) fd)

  -- After `fork`, the child's descriptors from 3 on lead where the parent's do, and those below 3 lead
  -- where `Process::new` let them lead, whatever the parent's are. `Process::new` opens only
  -- descriptors below 3.
  pub fork_files :
      (pid : ℕ) (s' : Family fa.State) (fd : ℕ)
      → (3 ≤ fd → opened made.files fd ≡ none)
      → fork fa vendor s parent child made ≡ done (pid, s')
      → opened (s'.procs child).files fd
        ≡ (if leb 3 fd then opened (s.procs parent).files fd else opened made.files fd)
  fork_files pid s' fd console e =
      let (w, f) = fork_inv pid s' e in
      subst
        (λ (r : ℕ × Family fa.State).
          opened (r.1.procs child).files fd
          ≡ (if leb 3 fd then opened (s.procs parent).files fd else opened made.files fd))
        f
        (child_files w fd
          ∙ inherited-none fd (opened (s.procs parent).files fd) (opened made.files fd) console)

  parent_in_child :
      (w : World fa.State)
      → 0 < s.held parent
      → parent ≢ child
      → getppid (forked s parent child made w).1 child ≡ ok (s.procs parent).pid
  unfolding getppid
  parent_in_child w held differ = ground (arith, held, differ)

  -- After `fork` by a process that a CPU still holds, `getppid` of the child gives the parent's pid.
  pub fork-getppid :
      (pid : ℕ) (s' : Family fa.State)
      → 0 < s.held parent
      → parent ≢ child
      → fork fa vendor s parent child made ≡ done (pid, s')
      → getppid s' child ≡ ok (s.procs parent).pid
  fork-getppid pid s' held differ e =
      let (w, f) = fork_inv pid s' e in
      subst (λ (r : ℕ × Family fa.State). getppid r.1 child ≡ ok (s.procs parent).pid) f
        (parent_in_child w held differ)
