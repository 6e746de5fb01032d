-- ===== src/Process/Status.antt =====
-- `ProcessStatus` of src/process/process.rs, and the table of the statuses of the processes that
-- are alive. A `Weak<Process>` is a handle, a number that is never reused; `none` in the table
-- means that `upgrade` fails.
use ark_rust_kernel.Prelude.{ℕ, Option, none, some, ◌≡◌, ◌≢◌, arith, ◌==◌, if◌then◌else◌}

pub data ProcessStatus : Type 0 where
  ready running suspend zombie : ProcessStatus

abbrev pub StatusTable : Type 0
StatusTable = ℕ → Option ProcessStatus

-- `proc.upgrade()` followed by a write of the status, if the process is alive
abbrev pub set_status : ℕ → ProcessStatus → StatusTable → StatusTable
set_status p s t q = if p == q then elim (t q) [ none ↦ none | some _ ↦ some s ] else t q

pub set_status_ne :
    (p q : ℕ) (s : ProcessStatus) (t : StatusTable) → p ≢ q → set_status p s t q ≡ t q
set_status_ne p q s t h = ground arith
