-- ===== src/Process/Life/Exit/Run.antt =====
-- What an `exit` of src/process/process.rs that ends has done, and what waking processes leaves.
use ark_rust_kernel.Prelude.{
  ℕ, ◌≡◌, refl, ◌∙◌, arith, List, [], ◌∷◌, Option, none, some, Bool, true, false, not, ◌==◌, done,
  unwrap, assert, >>=-eq-done,
}
use ark_rust_kernel.Prelude.Maps.{get}
use ark_rust_kernel.Memory.Frames.{FrameAllocator}
use ark_rust_kernel.Memory.Entry.{VendorId}
use ark_rust_kernel.Process.Status.{ProcessStatus, ready}
use ark_rust_kernel.Process.Memory.{World}
use ark_rust_kernel.Process.Memory
use ark_rust_kernel.Process.Life.{ProcessData, Family, strong_count, world_of}
use ark_rust_kernel.Process.Life.Exit.{
  buried, reparent, close_all, wake_waiting, wake_one, wake_all, let_go, exit,
}

abbrev pub after_exit : {S : Type 0} → (ℕ → Bool) → Family S → ℕ → ℕ → ℕ → World S → Family S
after_exit closes s h exit_code init w =
    let_go (wake_waiting (close_all closes (reparent (buried s h exit_code w) h init) h) h) h

-- An exit that ended
pub record IsExited {S : Type 0} (closes : ℕ → Bool) (s : Family S) (h exit_code : ℕ)
    (s' : Family S) : Type 0 where
  pub init : ℕ
  pub reset_world : World S
  pub init_listed : get s.process_list 1 ≡ some init
  pub only_ours : (strong_count s h == 3) ≡ true
  pub not_init : ((s.procs h).pid == 1) ≡ false
  pub result : after_exit closes s h exit_code init reset_world ≡ s'

assert-true : (b : Bool) (u : Unit {0}) → assert b ≡ done u → b ≡ true
assert-true true u e = refl
assert-true false u e = cc

unwrap-some : {A : Type 0} (o : Option A) (a : A) → unwrap o ≡ done a → o ≡ some a
unwrap-some none a e = cc
unwrap-some (some b) a e = cc

not-true : (b : Bool) → not b ≡ true → b ≡ false
not-true true e = cc
not-true false e = refl

pub exit_inv :
    (fa : FrameAllocator) (vendor : VendorId) (closes : ℕ → Bool) (s : Family fa.State)
    (h exit_code : ℕ) (s' : Family fa.State)
    → exit fa vendor closes s h exit_code ≡ done s'
    → IsExited closes s h exit_code s'
unfolding exit
exit_inv fa vendor closes s h exit_code s' e =
    let (u, counted, e1) = >>=-eq-done (assert (strong_count s h == 3)) _ e in
    let (v, other, e2) = >>=-eq-done (assert (not ((s.procs h).pid == 1))) _ e1 in
    let (w, _, e3) = >>=-eq-done (Memory.reset fa vendor (world_of s h)) _ e2 in
    let (init, listed, e4) = >>=-eq-done (unwrap (get s.process_list 1)) _ e3 in
    record {
      init = init;
      reset_world = w;
      init_listed = unwrap-some (get s.process_list 1) init listed;
      only_ours = assert-true (strong_count s h == 3) u counted;
      not_init = not-true ((s.procs h).pid == 1) (assert-true (not ((s.procs h).pid == 1)) v other);
      result = cc;
    }

module _ {S : Type 0} where
  wake_one-keeps :
      {A : Type 0} (f : ProcessData → A)
      → ((d : ProcessData) (st : ProcessStatus) → f (record d { status = st }) ≡ f d)
      → (s : Family S) (h k : ℕ) → f ((wake_one s h).procs k) ≡ f (s.procs k)
  wake_one-keeps f blind s h k = ground (arith, blind (s.procs h) ready)

  pub wake_all-open_files : (s : Family S) (hs : List ℕ) → (wake_all s hs).open_files ≡ s.open_files
  unfolding wake_all
  wake_all-open_files s [] = refl
  wake_all-open_files s (h ∷ rest) = wake_all-open_files (wake_one s h) rest ∙ ground arith

  -- Waking changes nothing but statuses.
  pub wake_all-keeps :
      {A : Type 0} (f : ProcessData → A)
      → ((d : ProcessData) (st : ProcessStatus) → f (record d { status = st }) ≡ f d)
      → (s : Family S) (hs : List ℕ) (k : ℕ) → f ((wake_all s hs).procs k) ≡ f (s.procs k)
  unfolding wake_all
  wake_all-keeps f blind s [] k = refl
  wake_all-keeps f blind s (h ∷ rest) k =
      wake_all-keeps f blind (wake_one s h) rest k ∙ wake_one-keeps f blind s h k
