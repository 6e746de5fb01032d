-- ===== src/Syscall/File.antt =====
-- The calls on descriptors of src/syscall/file.rs. An `Arc<dyn File>` is a number that is never
-- reused, and `strong` is its strong count. Which files a `close` of the file itself succeeds on,
-- and what the current directory opens as, are parameters.
pub mod Dup
mod Tests
use ark_rust_kernel.Prelude.{
  ℕ, zero, suc, ◌+◌, ◌-◌, ◌^◌, List, [], ◌∷◌, ◌++◌, Option, none, some, Bool, true, false, ltb,
  ◌==◌, if◌then◌else◌, Result, ok, err, Outcome, done, panic, length, get_elem?, set, unwrap, ◌>>=◌,
  ◌%◌, ℤ, as_isize, String,
}
use ark_rust_kernel.Syscall.Error.{SyscallError, enoent, eio, ebadf, espipe, SyscallResult}

-- `AT_FDCWD`: -100 as usize
abbrev pub at_fdcwd : ℕ
at_fdcwd = 2 ^ 64 - 100

-- The table of a process, the strong counts of the open files, and which of them are closed.
pub record Files : Type 0 where
  pub files : List (Option ℕ)
  pub strong : ℕ → ℕ
  pub closed : ℕ → Bool

-- A clone and a drop of an `Arc`.
abbrev pub clone_arc : Files → ℕ → Files
clone_arc s f = record s { strong = λ x. if x == f then s.strong x + 1 else s.strong x }

abbrev pub drop_arc : Files → ℕ → Files
drop_arc s f = record s { strong = λ x. if x == f then s.strong x - 1 else s.strong x }

-- A write of a slot that exists: what the slot held is dropped.
abbrev pub put : Files → ℕ → Option ℕ → Files
put s fd v = elim (get_elem? s.files fd) [
  | some (some old) ↦ record (drop_arc s old) { files = set s.files fd v }
  | _ ↦ record s { files = set s.files fd v }
]

-- `allocate_fd`: the first slot that is free, or a new one
abbrev pub first_free : List (Option ℕ) → Option ℕ
first_free [] = none
first_free (none ∷ rest) = some 0
first_free (some f ∷ rest) = elim (first_free rest) [ some i ↦ some (suc i) | none ↦ none ]

unfoldable pub allocate_fd : Files → ℕ × Files
allocate_fd s = elim (first_free s.files) [
  | some fd ↦ (fd, s)
  | none ↦ (length s.files, record s { files = s.files ++ (none ∷ []) })
]

pub data SeekPosition : Type 0 where
  seek_set seek_cur seek_end : SeekPosition

-- The `match` on `whence`
abbrev pub seek_position : ℕ → Option SeekPosition
seek_position whence =
    if whence == 0
    then some seek_set
    else if whence == 1
    then some seek_cur
    else if whence == 2
    then some seek_end
    else none

module _ (closes : ℕ → Bool) (open_cwd : Files → Result SyscallError (ℕ × Files)) where
  -- The file, cloned, or opened for the current directory.
  unfoldable pub get_file_from_fd : Files → ℕ → Result SyscallError (ℕ × Files)
  get_file_from_fd s fd =
      let opened : Result SyscallError (ℕ × Files) = elim (open_cwd s) [
        | ok r ↦ ok r
        | err _ ↦ err enoent
      ] in
      let found : Result SyscallError (ℕ × Files) = elim (get_elem? s.files fd) [
        | some (some f) ↦ ok (f, clone_arc s f)
        | _ ↦ err ebadf
      ] in
      if fd == at_fdcwd then opened else found

  -- `file.close()`
  abbrev pub close_file : Files → ℕ → Result SyscallError Files
  close_file s f =
      if closes f
      then ok (record s { closed = λ x. if x == f then true else s.closed x })
      else err eio

  unfoldable pub close : Files → ℕ → SyscallResult × Files
  close s fd = elim (get_elem? s.files fd) [
    | some (some f) ↦
        if ltb 1 (s.strong f)
        then (ok 0, put s fd none)
        else (elim (close_file s f) [ ok s' ↦ (ok 0, put s' fd none) | err e ↦ (err e, s) ])
    | _ ↦ (err ebadf, s)
  ]

  unfoldable pub dup : Files → ℕ → SyscallResult × Files
  unfolding allocate_fd
  dup s old_fd = elim (get_file_from_fd s old_fd) [
    | ok (f, s') ↦ let (new_fd, s'') = allocate_fd s' in (ok new_fd, put s'' new_fd (some f))
    | err e ↦ (err e, s)
  ]

  -- The part of `dup3` that closes what the new descriptor was.
  unfoldable pub close_old : Files → ℕ → Result SyscallError Files
  close_old s new_fd = elim (get_file_from_fd s new_fd) [
    | ok (old, s') ↦ (elim (close_file s' old) [ ok s'' ↦ ok (drop_arc s'' old) | err e ↦ err e ])
    | err _ ↦ ok s
  ]

  -- An index beyond the table panics. Where closing fails, the clones are dropped again.
  unfoldable pub dup3 : Files → ℕ → ℕ → Outcome (SyscallResult × Files)
  dup3 s old_fd new_fd = elim (get_file_from_fd s old_fd) [
    | ok (f, s') ↦ (elim (close_old s' new_fd) [
      | ok s'' ↦
          if ltb new_fd (length s''.files) then done (ok new_fd, put s'' new_fd (some f)) else panic
      | err e ↦ done (err e, s)
    ])
    | err e ↦ done (err e, s)
  ]

  -- `pipe2`: the two ends are new files. The last part of the result is the place of `ufds` and what
  -- is written there.
  unfoldable pub pipe2 : Files → Option ℕ → ℕ → ℕ → Outcome (SyscallResult × Files × (ℕ × ℕ × ℕ))
  unfolding allocate_fd
  pipe2 s translated file_read file_write =
      let (fd_read, s1) = allocate_fd s in
      let s2 = clone_arc (put s1 fd_read (some file_read)) file_read in
      let (fd_write, s3) = allocate_fd s2 in
      let s4 = clone_arc (put s3 fd_write (some file_write)) file_write in
      unwrap translated >>= λ ufds. done (ok 0, s4, (ufds, fd_read % 2 ^ 32, fd_write % 2 ^ 32))

  -- `lseek`: `seek` is what the file itself does.
  unfoldable pub lseek :
      (ℕ → ℤ → SeekPosition → Result String ℕ) → Files → ℕ → ℕ → ℕ → SyscallResult
  lseek seek s fd offset whence = elim (seek_position whence) [
    | some w ↦ (elim (get_file_from_fd s fd) [
      | ok (f, _) ↦ (elim (seek f (as_isize offset) w) [ ok pos ↦ ok pos | err _ ↦ err espipe ])
      | err e ↦ err e
    ])
    | none ↦ err espipe
  ]
