-- ===== src/Filesystem/Mount.antt =====
-- `init`, `register_filesystem` and `mount` of src/filesystem/mod.rs.
pub mod Listing
pub mod Start
use ark_rust_kernel.Prelude.{
  ℕ, ◌+◌, ◌==◌, Bool, true, false, List, [], ◌∷◌, ◌++◌, Option, none, some, Outcome, done, Result,
  ok, err, unwrap_ok, ◌>>=◌, length, set, if◌then◌else◌, String,
}
use ark_rust_kernel.Prelude.Text.{Text, bytes, get_name, insert_name}
use ark_rust_kernel.Filesystem.Flags.{o_rdwr}
use ark_rust_kernel.Filesystem.Inode.{
  DirEntryType, file, dir, DirEntry, new_dentry, OpenedFile, Inodes, Vfs, dentry,
}
use ark_rust_kernel.Filesystem.Dentry.{root_name, is_dir, from_path}
use ark_rust_kernel.Filesystem.Directory.{Answer, mkdir, open_dentry}

module _ {W : Type 0} where
  abbrev pub register_filesystem : Vfs W → Text → ℕ → Vfs W
  register_filesystem s name fs = record s { filesystems = insert_name s.filesystems name fs }

  abbrev pub with_root : Vfs W → Vfs W
  with_root s = record s {
    dentries = s.dentries ++ (new_dentry none root_name none dir ∷ []);
    root_dentry = some (length s.dentries);
  }

  -- The write of the inode of the mount point
  abbrev pub set_inode : Vfs W → ℕ → ℕ → Vfs W
  set_inode s h inode =
      let there = record (dentry s h) { inode = some inode } in
      record s { dentries = set s.dentries h there }

module _ {W : Type 0} (ops : Inodes W) where
  open ops use {mount_fs}

  unfoldable pub init : Vfs W → ℕ → Outcome (Vfs W)
  init s fatfs = mkdir ops (with_root s) (length s.dentries) (bytes "dev") >>= λ r.
      unwrap_ok r.0 >>= λ _. done (register_filesystem r.1 (bytes "fatfs") fatfs)

  -- The device is opened, mounted, and becomes the inode of the mount point.
  abbrev pub mount_device : Vfs W → ℕ → ℕ → ℕ → Answer W (Unit {0})
  mount_device s fs dev point = open_dentry ops s dev o_rdwr 0 >>= λ r. elim r.0 [
    | ok device ↦ mount_fs r.1.world fs (some device) point >>= λ m. elim m.0 [
      | ok inode ↦ done (ok tt, set_inode (record r.1 { world = m.1 }) point inode)
      | err e ↦ done (err e, record r.1 { world = m.1 })
    ]
    | err e ↦ done (err e, r.1)
  ]

  unfoldable pub mount_at : Vfs W → ℕ → ℕ → ℕ → Answer W (Unit {0})
  mount_at s fs dev point =
      let mounted = mount_device s fs dev point in
      if is_dir (dentry s point).type_
      then (if length (dentry s point).children == 0
          then mounted
          else done (err "Mount Point is not empty.", s))
      else done (err "Mount Point is not a directory.", s)

  unfoldable pub mount : Vfs W → Option ℕ → Text → Text → Text → Answer W (Unit {0})
  mount s cwd dev mount_point filesystem = elim (get_name s.filesystems filesystem) [
    | some fs ↦ from_path ops s dev cwd >>= λ d. elim d.0 [
      | some device ↦ from_path ops d.1 mount_point cwd >>= λ m. elim m.0 [
        | some point ↦ mount_at m.1 fs device point
        | none ↦ done (err "Mount Point Not Found", m.1)
      ]
      | none ↦ done (err "Device Not Found", d.1)
    ]
    | none ↦ done (err "Filesystem Not Found", s)
  ]
