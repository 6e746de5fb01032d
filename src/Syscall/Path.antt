-- ===== src/Syscall/Path.antt =====
-- The calls on paths of src/syscall/file.rs and src/syscall/utils.rs. A path is what `get_cstr`
-- reads at the user's address, or `none` where the address does not translate, which panics.
pub mod Cwd
use ark_rust_kernel.Prelude.{
  ℕ, zero, suc, ◌+◌, ◌-◌, ◌/◌, ◌^◌, ◌==◌, Bool, true, false, ltb, List, [], ◌∷◌, ◌++◌, Option, none,
  some, Outcome, done, panic, unwrap, Result, ok, err, ◌>>=◌, length, get_elem?, if◌then◌else◌,
  String,
}
use ark_rust_kernel.Prelude.Text.{Text}
use ark_rust_kernel.Filesystem.Flags.{InodeStat, vfs_inode_stat, is_create}
use ark_rust_kernel.Filesystem.Inode.{
  DirFile, OpenedFile, dir_file, inode_file, Inodes, Vfs, dentry,
}
use ark_rust_kernel.Filesystem.Dentry.{get_parent, from_path, fullpath}
use ark_rust_kernel.Filesystem.Directory.{mkdir, link, open_dentry}
use ark_rust_kernel.Filesystem.Mount as Mount
use ark_rust_kernel.Syscall.Error.{SyscallError, eperm, enoent, eio, ebadf, enomem, SyscallResult}
use ark_rust_kernel.Syscall.File.{at_fdcwd, Files, allocate_fd, put}

-- What a call works on: the entries, the open files by their numbers, and the descriptors and the
-- current directory of the process.
pub record Session (W : Type 0) : Type 0 where
  pub vfs : Vfs W
  pub opened_files : List OpenedFile
  pub table : Files
  pub cwd : ℕ

-- What a call returns, and the state after it
abbrev pub Call : Type 0 → Type 0
Call W = Outcome (SyscallResult × Session W)

abbrev pub with_vfs : {W : Type 0} → Session W → Vfs W → Session W
with_vfs s v = record s { vfs = v }

-- `file.get_dentry()`; that of an inode's file is a parameter.
abbrev pub file_dentry : (ℕ → Result String ℕ) → OpenedFile → Result String ℕ
file_dentry inode_file_dentry (dir_file f) = ok f.dir_entry
file_dentry inode_file_dentry (inode_file f) = inode_file_dentry f

module _ {W : Type 0} (inode_file_dentry : ℕ → Result String ℕ) where
  abbrev pub dentry_of_file : Session W → ℕ → Result SyscallError ℕ
  dentry_of_file s f = elim (get_elem? s.opened_files f) [
    | some o ↦ (elim (file_dentry inode_file_dentry o) [ ok d ↦ ok d | err _ ↦ err enoent ])
    | none ↦ err ebadf
  ]

  unfoldable pub get_dentry_from_fd : Session W → ℕ → Result SyscallError ℕ
  get_dentry_from_fd s fd =
      let found : Result SyscallError ℕ = elim (get_elem? s.table.files fd) [
        | some (some f) ↦ dentry_of_file s f
        | _ ↦ err ebadf
      ] in
      if fd == at_fdcwd then ok s.cwd else found

  -- The directory that a path is relative to, or the error of it
  abbrev pub from_fd : Session W → ℕ → (ℕ → Call W) → Call W
  from_fd s fd k = elim (get_dentry_from_fd s fd) [ ok d ↦ k d | err e ↦ done (err e, s) ]

-- A new open file gets a number and a descriptor.
abbrev pub install : {W : Type 0} → Session W → OpenedFile → ℕ × Session W
install s o =
    let f = length s.opened_files in
    let (fd, t) = allocate_fd s.table in
    let counted = record t { strong = λ g. if g == f then 1 else t.strong g } in
    (fd, record s { opened_files = s.opened_files ++ (o ∷ []); table = put counted fd (some f) })

module _ {W : Type 0} (ops : Inodes W) (inode_file_dentry : ℕ → Result String ℕ) where
  abbrev pub open_found : Session W → ℕ → ℕ → ℕ → Call W
  open_found s d flags mode = open_dentry ops s.vfs d flags mode >>= λ r. elim r.0 [
    | ok o ↦ let (fd, s') = install (with_vfs s r.1) o in done (ok fd, s')
    | err _ ↦ done (err eio, with_vfs s r.1)
  ]

  -- `open`: the creation of files is a `todo!`.
  unfoldable pub openat : Session W → ℕ → Option Text → ℕ → ℕ → Call W
  openat s parent_fd path flags mode = unwrap path >>= λ filename.
      from_fd inode_file_dentry s parent_fd (λ cwd.
        let opened = from_path ops s.vfs filename (some cwd) >>= λ r. elim r.0 [
          | some d ↦ open_found (with_vfs s r.1) d flags mode
          | none ↦ done (err eio, with_vfs s r.1)
        ] in
        if is_create flags then panic else opened)

  unfoldable pub mkdirat : Session W → ℕ → Option Text → Call W
  mkdirat s dir_fd path = unwrap path >>= λ filename. from_fd inode_file_dentry s dir_fd (λ d.
      get_parent ops s.vfs filename (some d) >>= λ r. elim r.0 [
        | some (parent, name) ↦ mkdir ops r.1 parent name >>= λ m. elim m.0 [
          | ok _ ↦ done (ok 0, with_vfs s m.1)
          | err _ ↦ done (err eio, with_vfs s m.1)
        ]
        | none ↦ done (err enoent, with_vfs s r.1)
      ])

  -- The link of an entry that was found
  abbrev pub link_found : Session W → ℕ → ℕ → Text → Call W
  link_found s old parent name = elim (dentry s.vfs old).inode [
    | some inode ↦ link ops s.vfs parent inode name >>= λ r. elim r.0 [
      | ok _ ↦ done (ok 0, with_vfs s r.1)
      | err _ ↦ done (err eperm, with_vfs s r.1)
    ]
    | none ↦ done (err eperm, s)
  ]

  unfoldable pub linkat : Session W → ℕ → Option Text → ℕ → Option Text → Call W
  linkat s old_dirfd old_path new_dirfd new_path = from_fd inode_file_dentry s old_dirfd (λ old_dir.
      from_fd inode_file_dentry s new_dirfd (λ new_dir. unwrap old_path >>= λ old_name.
      from_path ops s.vfs old_name (some old_dir) >>= λ r. elim r.0 [
        | some old ↦ unwrap new_path >>= λ new_name.
            get_parent ops r.1 new_name (some new_dir) >>= λ q. elim q.0 [
              | some (parent, name) ↦ link_found (with_vfs s q.1) old parent name
              | none ↦ done (err enoent, with_vfs s q.1)
            ]
        | none ↦ done (err enoent, with_vfs s r.1)
      ]))

-- What `chdir` makes of the entry that it found, or not
abbrev pub moved : {W : Type 0} → Session W → Option ℕ × Vfs W → SyscallResult × Session W
moved s (some d, v) = (ok 0, record s { vfs = v; cwd = d })
moved s (none, v) = (err eperm, with_vfs s v)

module _ {W : Type 0} (ops : Inodes W) where
  unfoldable pub mount : Session W → Option Text → Option Text → Option Text → Call W
  mount s dev mount_point filesystem = unwrap dev >>= λ d. unwrap mount_point >>= λ m.
      unwrap filesystem >>= λ f. Mount.mount ops s.vfs (some s.cwd) d m f >>= λ r. elim r.0 [
        | ok _ ↦ done (ok 0, with_vfs s r.1)
        | err _ ↦ done (err eio, with_vfs s r.1)
      ]

  unfoldable pub chdir : Session W → Option Text → Call W
  chdir s path =
      unwrap path >>= λ name. from_path ops s.vfs name (some s.cwd) >>= λ r. done (moved s r)

-- `getcwd`: what is written, with a zero byte at the end, at the buffer that
-- `translate_with_stack_alloc` gives, or not at all. A null buffer is a `todo!`.
unfoldable pub getcwd :
    {W : Type 0} → Session W → Bool → ℕ → ℕ → Outcome (SyscallResult × Option Text)
getcwd s translates buf len = fullpath s.vfs s.cwd >>= λ path.
    let bytes = path ++ (0 ∷ []) in
    if ltb len (length bytes)
    then done (err enomem, none)
    else if buf == 0
    then panic
    else if translates
    then done (ok buf, some bytes)
    else done (err enomem, none)
