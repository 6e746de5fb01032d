-- ===== src/Syscall/File/Tests.antt =====
-- The theorems on src/syscall/file.rs at a concrete table.
use ark_rust_kernel.Prelude.{
  ℕ, ◌≡◌, refl, [], ◌∷◌, none, some, take, Bool, true, false, ◌==◌, if◌then◌else◌, Result, ok, err,
  done,
}
use ark_rust_kernel.Syscall.Error.{SyscallError, enoent}
use ark_rust_kernel.Syscall.File.{Files, dup, dup3}
use ark_rust_kernel.Syscall.File.Dup.{slot, all_taken, dup_shares, dup3_closes_shared}

abbrev always : ℕ → Bool
always f = true

abbrev no_cwd : Files → Result SyscallError (ℕ × Files)
no_cwd s = err enoent

-- Two descriptors of file 40, a free one, and one of file 41.
abbrev table : Files
table = record {
  files = some 40 ∷ some 40 ∷ none ∷ some 41 ∷ [];
  strong = λ x. if x == 40 then 2 else if x == 41 then 1 else 0;
  closed = λ x. false;
}

dup_shares_example :
    (n : ℕ) × (t : Files) × (dup always no_cwd table 3 ≡ (ok n, t))
    × (slot table n ≡ none)
    × (all_taken (take n table.files) ≡ true)
    × (slot t 0 ≡ (if 0 == n then some 41 else some 40))
    × (t.strong 41 ≡ 2)
    × (t.closed ≡ table.closed)
dup_shares_example = dup_shares always no_cwd table 3 41 refl refl 0 41

dup3_closes_shared_example :
    (t : Files) × (dup3 always no_cwd table 3 0 ≡ done (ok 0, t)) × (t.closed 40 ≡ true)
dup3_closes_shared_example =
    dup3_closes_shared always no_cwd table 3 41 refl refl 0 40 refl refl refl
