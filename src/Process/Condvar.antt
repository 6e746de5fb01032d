-- ===== src/Process/Condvar.antt =====
-- `Condvar` of src/process/condvar.rs. The head of `waiting_list` is the end of the `Vec`, where
-- `push` and `pop` work.
use ark_rust_kernel.Prelude.{
  ℕ, ◌≡◌, refl, List, [], ◌∷◌, Option, none, some, arith, if◌then◌else◌, contains,
}
use ark_rust_kernel.Process.Status.{ProcessStatus, ready, suspend, StatusTable, set_status}

pub record Condvar : Type 0 where
  pub waiting_list : List ℕ

abbrev pub new : Condvar
new = record { waiting_list = [] }

-- The loop of `wakeup`: every process that is still alive becomes ready.
pub wake_all : List ℕ → StatusTable → StatusTable
wake_all [] t = t
wake_all (p ∷ ps) t = wake_all ps (set_status p ready t)

unfoldable pub wakeup : Condvar → StatusTable → Condvar × StatusTable
wakeup c t = (record { waiting_list = [] }, wake_all c.waiting_list t)

-- `wait` of the current process `proc`
unfoldable pub wait : ℕ → Condvar → StatusTable → Condvar × StatusTable
wait proc c t = (record { waiting_list = proc ∷ c.waiting_list }, set_status proc suspend t)

-- What `upgrade` and the write of `Ready` do to one process.
abbrev pub woken : Option ProcessStatus → Option ProcessStatus
woken none = none
woken (some _) = some ready

wake_all-none : (ps : List ℕ) (t : StatusTable) (q : ℕ) → t q ≡ none → wake_all ps t q ≡ none
unfolding wake_all
wake_all-none [] t q h = h
wake_all-none (p ∷ ps) t q h = wake_all-none ps (set_status p ready t) q (ground arith)

wake_all-ready :
    (ps : List ℕ) (t : StatusTable) (q : ℕ) → t q ≡ some ready → wake_all ps t q ≡ some ready
unfolding wake_all
wake_all-ready [] t q h = h
wake_all-ready (p ∷ ps) t q h = wake_all-ready ps (set_status p ready t) q (ground arith)

pub wake_all_lem :
    (ps : List ℕ) (t : StatusTable) (q : ℕ)
    → wake_all ps t q ≡ (if contains ps q then woken (t q) else t q)
unfolding wake_all
wake_all_lem [] t q = refl
wake_all_lem (p ∷ ps) t q = ground (arith, wake_all_lem ps (set_status p ready t) q)
