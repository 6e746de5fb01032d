-- ===== src/Syscall/Stat/Zero.antt =====
-- A directory without an inode in `fstat` and `newfstatat` of src/syscall/file.rs.
use ark_rust_kernel.Prelude.{ℕ, ◌≡◌, refl, arith, true, none, some, done, panic, Result, ok, String}
use ark_rust_kernel.Filesystem.Flags.{vfs_inode_stat}
use ark_rust_kernel.Filesystem.Inode.{Inodes, dentry}
use ark_rust_kernel.Filesystem.Dentry.{dot, walk, get_parent, target, from_path}
use ark_rust_kernel.Syscall.Path.{Session, get_dentry_from_fd}
use ark_rust_kernel.Syscall.Stat.{kernel_stat, stat_of, fstat, newfstatat}

module _ {W : Type 0} (ops : Inodes W) (inode_file_dentry : ℕ → Result String ℕ)
    (s : Session W) where
  get_parent-dot :
      (d r : ℕ)
      → s.vfs.root_dentry ≡ some r
      → get_parent ops s.vfs dot (some d) ≡ done (some (d, dot), s.vfs)
  unfolding get_parent walk
  get_parent-dot d r known = rw (get_parent, known) refl

  -- `.` leads to the directory itself.
  from_path-dot :
      (d r : ℕ)
      → s.vfs.root_dentry ≡ some r
      → from_path ops s.vfs dot (some d) ≡ done (some d, s.vfs)
  unfolding from_path target
  from_path-dot d r known = rw (from_path, get_parent-dot d r known) refl

  stat_of-vfs : (d : ℕ) → (dentry s.vfs d).inode ≡ none → stat_of ops s.vfs d ≡ done vfs_inode_stat
  stat_of-vfs d vfs = ground (arith, vfs)

  -- For a descriptor of an entry without an inode, `fstat` divides by 0 and panics, while
  -- `newfstatat` of `.` there writes the stat of the file system with 0 blocks.
  pub fstat_vfs_panics :
      (fd d r : ℕ)
      → s.vfs.root_dentry ≡ some r
      → get_dentry_from_fd inode_file_dentry s fd ≡ ok d
      → (dentry s.vfs d).inode ≡ none
      → (fstat ops inode_file_dentry s fd true ≡ panic)
        × (newfstatat ops inode_file_dentry s fd (some dot) true
            ≡ done (ok 0, some (kernel_stat vfs_inode_stat 0), s))
  unfolding fstat newfstatat
  fstat_vfs_panics fd d r known leads vfs =
      let stat = stat_of-vfs d vfs in
      (rw (fstat, leads, stat) refl, rw (newfstatat, leads, from_path-dot d r known, stat) refl)
