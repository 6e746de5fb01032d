-- ===== src/Process/Life/Exit/Close.antt =====
-- The files that `exit` of src/process/process.rs closes.
use mathlib.Core.Path.{subst}
use ark_rust_kernel.Prelude.{
  ℕ, ◌+◌, ◌-◌, ◌≤◌, ◌≡◌, ◌∙◌, ap, arith, List, [], ◌∷◌, Option, none, some, Bool, ◌&&◌, ◌||◌, ltb,
  leb, ◌==◌, if◌then◌else◌, done,
}
use ark_rust_kernel.Memory.Frames.{FrameAllocator}
use ark_rust_kernel.Memory.Entry.{VendorId}
use ark_rust_kernel.Process.Memory.{World}
use ark_rust_kernel.Process.Condvar
use ark_rust_kernel.Process.Life.{OpenFiles, Family, with_data}
use ark_rust_kernel.Process.Life.Exit.{close_files, buried, reparent, close_all, exit}
use ark_rust_kernel.Process.Life.Exit.Run.{after_exit, exit_inv, wake_all-open_files}

-- How many descriptors lead to a file
abbrev pub count : ℕ → List (Option ℕ) → ℕ
count f [] = 0
count f (none ∷ rest) = count f rest
count f (some g ∷ rest) = (if g == f then 1 else 0) + count f rest

module _ (closes : ℕ → Bool) where
  close_files-strong :
      (files : List (Option ℕ)) (o : OpenFiles) (f : ℕ)
      → (close_files closes files o).strong f ≡ o.strong f - count f files
  unfolding close_files
  close_files-strong [] o f = omega arith
  close_files-strong (none ∷ rest) o f = close_files-strong rest o f
  close_files-strong (some g ∷ rest) o f = ground (arith, close_files-strong rest o f)

  -- Where no file has fewer references than descriptors here, the files that are closed are those that
  -- nobody else refers to.
  close_files-closed :
      (files : List (Option ℕ)) (o : OpenFiles) (f : ℕ)
      → count f files ≤ o.strong f
      → (close_files closes files o).closed f
        ≡ (o.closed f || (closes f && ltb 0 (count f files) && leb (o.strong f) (count f files)))
  unfolding close_files
  close_files-closed [] o f h = ground arith
  close_files-closed (none ∷ rest) o f h = close_files-closed rest o f h
  close_files-closed (some g ∷ rest) o f h =
      ground (
        arith,
        close_files-closed rest o f,
        close_files-strong rest o f,
        close_files-strong rest o g,
      )

module _ {S : Type 0} (closes : ℕ → Bool) (s : Family S) (h exit_code init : ℕ) (w : World S) where
  -- The files that are closed are those of the process.
  files_left : ((reparent (buried s h exit_code w) h init).procs h).files ≡ (s.procs h).files
  files_left = ground arith

  open_files_after :
      (after_exit closes s h exit_code init w).open_files
      ≡ close_files closes (s.procs h).files s.open_files
  open_files_after =
      let left = reparent (buried s h exit_code w) h init in
      let shut = close_all closes left h in
      wake_all-open_files
        (with_data shut h (record (shut.procs h) { condvar_waiting_for_exit = Condvar.new }))
        ((shut.procs h).condvar_waiting_for_exit.waiting_list)
      ∙ ap (λ (fs : List (Option ℕ)). close_files closes fs s.open_files) files_left

-- An `exit` that ends takes one reference from a file for each descriptor of the process, and closes
-- those files, if they can be closed, that have no other reference; other files stay open. No file
-- may have fewer references than the process has descriptors of it.
pub exit_closes :
    (fa : FrameAllocator) (vendor : VendorId) (closes : ℕ → Bool) (s : Family fa.State)
    (h exit_code : ℕ) (s' : Family fa.State) (f : ℕ)
    → count f (s.procs h).files ≤ s.open_files.strong f
    → exit fa vendor closes s h exit_code ≡ done s'
    → (s'.open_files.strong f ≡ s.open_files.strong f - count f (s.procs h).files)
      × (s'.open_files.closed f ≡ (
          s.open_files.closed f
          || (closes f
              && ltb 0 (count f (s.procs h).files)
              && leb (s.open_files.strong f) (count f (s.procs h).files))))
exit_closes fa vendor closes s h exit_code s' f enough e =
    let ended = exit_inv fa vendor closes s h exit_code s' e in
    let shut : s'.open_files ≡ close_files closes (s.procs h).files s.open_files =
      subst
        (λ (z : Family fa.State). z.open_files ≡ close_files closes (s.procs h).files s.open_files)
        ended.result (open_files_after closes s h exit_code ended.init ended.reset_world) in
    (
      ap (λ (o : OpenFiles). o.strong f) shut
          ∙ close_files-strong closes (s.procs h).files s.open_files f,
      ap (λ (o : OpenFiles). o.closed f) shut
          ∙ close_files-closed closes (s.procs h).files s.open_files f enough,
    )
