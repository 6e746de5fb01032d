-- ===== src/Process/Life/Exit/Reparent.antt =====
-- The children of a process that ends by `exit` of src/process/process.rs.
use mathlib.Core.Path.{subst}
use ark_rust_kernel.Prelude.{
  ℕ, ◌≡◌, ◌≢◌, refl, sym, ◌∙◌, arith, List, ◌++◌, some, Bool, true, done, ok,
}
use ark_rust_kernel.Prelude.Maps.{get, remove, sorted, get-remove}
use ark_rust_kernel.Memory.Frames.{FrameAllocator}
use ark_rust_kernel.Memory.Entry.{VendorId}
use ark_rust_kernel.Process.Memory.{World}
use ark_rust_kernel.Process.Condvar
use ark_rust_kernel.Process.Life.{Family, update, strong_count, with_data, getppid}
use ark_rust_kernel.Process.Life.Exit.{buried, reparent, close_all, popped, exit}
use ark_rust_kernel.Process.Life.Exit.Run.{after_exit, exit_inv, wake_all-keeps}

module _ {S : Type 0} (closes : ℕ → Bool) (s : Family S) (h exit_code init : ℕ) (w : World S) where
  -- All but the waking
  abbrev shut : Family S
  shut =
      let left = close_all closes (reparent (buried s h exit_code w) h init) h in
      with_data left h (record (left.procs h) { condvar_waiting_for_exit = Condvar.new })

  abbrev waiting : List ℕ
  waiting =
      let left = close_all closes (reparent (buried s h exit_code w) h init) h in
      (left.procs h).condvar_waiting_for_exit.waiting_list

  init_children :
      init ≢ h
      → ((after_exit closes s h exit_code init w).procs init).children
        ≡ (s.procs init).children ++ popped (s.procs h).children
  init_children differ =
      wake_all-keeps (λ d. d.children) (λ d st. refl) shut waiting init ∙ ground (arith, differ)

  parent_kept :
      (c : ℕ) → ((after_exit closes s h exit_code init w).procs c).parent ≡ (s.procs c).parent
  parent_kept c = wake_all-keeps (λ d. d.parent) (λ d st. refl) shut waiting c ∙ ground arith

  pid_kept : (c : ℕ) → ((after_exit closes s h exit_code init w).procs c).pid ≡ (s.procs c).pid
  pid_kept c = wake_all-keeps (λ d. d.pid) (λ d st. refl) shut waiting c ∙ ground arith

-- The children of a process whose `exit` ends are behind the children of process 1, the last first.
pub exit_orphans :
    (fa : FrameAllocator) (vendor : VendorId) (closes : ℕ → Bool) (s : Family fa.State)
    (h exit_code init : ℕ) (s' : Family fa.State)
    → get s.process_list 1 ≡ some init
    → init ≢ h
    → exit fa vendor closes s h exit_code ≡ done s'
    → (s'.procs init).children ≡ (s.procs init).children ++ popped (s.procs h).children
exit_orphans fa vendor closes s h exit_code init s' first differ e =
    let ended = exit_inv fa vendor closes s h exit_code s' e in
    let listed = ended.init_listed in
    let same : ended.init ≡ init = cc in
    subst
      (λ (z : Family fa.State).
        (z.procs init).children ≡ (s.procs init).children ++ popped (s.procs h).children)
      ended.result
      (subst
        (λ k.
          ((after_exit closes s h exit_code k ended.reset_world).procs init).children
          ≡ (s.procs init).children ++ popped (s.procs h).children)
        (sym same) (init_children closes s h exit_code init ended.reset_world differ))

-- A process that is gone: no reference is held, and it left the table.
abbrev pub reaped : {S : Type 0} → Family S → ℕ → Family S
reaped s h = record s {
  held = update s.held h 0;
  process_list = remove s.process_list (s.procs h).pid;
}

reaped_count :
    {S : Type 0} (s : Family S) (h : ℕ)
    → sorted 0 s.process_list ≡ true
    → strong_count (reaped s h) h ≡ 0
reaped_count s h order =
    ground (arith, get-remove 0 s.process_list (s.procs h).pid (s.procs h).pid order)

gone_parent :
    {S : Type 0} (s : Family S) (h c : ℕ)
    → (s.procs c).parent ≡ some h
    → strong_count s h ≡ 0
    → getppid s c ≡ ok 0
unfolding getppid
gone_parent s h c back none_left = rw (getppid, back, none_left) refl

-- Once a process that exited is gone, `getppid` of its children gives 0, not the pid of process 1,
-- which they were given to.
pub exit_orphan-getppid :
    (fa : FrameAllocator) (vendor : VendorId) (closes : ℕ → Bool) (s : Family fa.State)
    (h exit_code c : ℕ) (s' : Family fa.State)
    → (s.procs c).parent ≡ some h
    → sorted 0 s'.process_list ≡ true
    → exit fa vendor closes s h exit_code ≡ done s'
    → getppid (reaped s' h) c ≡ ok 0
exit_orphan-getppid fa vendor closes s h exit_code c s' back order e =
    let ended = exit_inv fa vendor closes s h exit_code s' e in
    let kept : (s'.procs c).parent ≡ some h =
      subst (λ (z : Family fa.State). (z.procs c).parent ≡ some h) ended.result
        (parent_kept closes s h exit_code ended.init ended.reset_world c ∙ back) in
    gone_parent (reaped s' h) h c kept (reaped_count s' h order)
