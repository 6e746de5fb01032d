-- ===== src/Syscall/Error.antt =====
-- The errors of src/syscall/error.rs that the modelled calls return, and how src/syscall/mod.rs
-- hands a result to the user.
use ark_rust_kernel.Prelude.{ℕ, Result, ok, err, sub_usize}

pub data SyscallError : Type 0 where
  eperm enoent eio ebadf echild enomem espipe : SyscallError

-- `e as isize`
abbrev pub error_number : SyscallError → ℕ
error_number eperm = 1
error_number enoent = 2
error_number eio = 5
error_number ebadf = 9
error_number echild = 10
error_number enomem = 12
error_number espipe = 29

abbrev pub SyscallResult : Type 0
SyscallResult = Result SyscallError ℕ

-- The end of `syscall_handler`: `(-(e as isize)) as usize`
abbrev pub return_value : SyscallResult → ℕ
return_value (ok v) = v
return_value (err e) = sub_usize 0 (error_number e)
