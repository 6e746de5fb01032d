-- ===== src/Syscall/Path/Cwd.antt =====
-- `chdir` and `getcwd` of src/syscall/utils.rs undo each other.
use ark_rust_kernel.Prelude.{
  ℕ, ◌<◌, ◌≡◌, ◌≢◌, ap, sym, ◌∙◌, arith, true, List, [], ◌∷◌, ◌++◌, Option, some, Outcome, done,
  ◌>>=◌, ok, length, length-append,
}
use ark_rust_kernel.Prelude.Text.{Text}
use ark_rust_kernel.Filesystem.Inode.{Inodes, Vfs}
use ark_rust_kernel.Filesystem.Dentry.{from_path, fullpath}
use ark_rust_kernel.Filesystem.Dentry.Paths.{Reaches, IsRooted}
use ark_rust_kernel.Filesystem.Dentry.RoundTrip.{from_path-fullpath}
use ark_rust_kernel.Syscall.Path.{Session, moved, chdir, getcwd}

module _ {W : Type 0} (ops : Inodes W) (s : Session W) where
  chdir_known :
      (path : Text) (h : ℕ)
      → from_path ops s.vfs path (some s.cwd) ≡ done (some h, s.vfs)
      → chdir ops s (some path) ≡ done (ok 0, record s { cwd = h })
  unfolding chdir
  chdir_known path h e = ap (λ (m : Outcome (Option ℕ × Vfs W)). m >>= λ r. done (moved s r)) e

module _ {W : Type 0} (s : Session W) where
  getcwd_known :
      (path : Text) (buf len : ℕ)
      → fullpath s.vfs s.cwd ≡ done path
      → length path < len
      → buf ≢ 0
      → getcwd s true buf len ≡ done (ok buf, some (path ++ (0 ∷ [])))
  unfolding getcwd
  getcwd_known path buf len e fits there =
      rw (e) (ground (arith, length-append path (0 ∷ []), fits, there))

module _ {W : Type 0} (ops : Inodes W) (s : Session W) where
  -- `chdir` to the full path of a directory that the root reaches by loaded children, whose names are
  -- not empty, not `.` or `..`, and have no slash, succeeds, and `getcwd` then writes that path with a
  -- zero byte, for a buffer that translates, is not null, and has room for it.
  pub chdir-getcwd :
      {h : ℕ} {ns : List Text} {path : Text} (buf len : ℕ)
      → IsRooted s.vfs
      → Reaches s.vfs h ns
      → fullpath s.vfs h ≡ done path
      → length path < len
      → buf ≢ 0
      → (chdir ops s (some path) ≡ done (ok 0, record s { cwd = h }))
        × (getcwd (record s { cwd = h }) true buf len ≡ done (ok buf, some (path ++ (0 ∷ []))))
  chdir-getcwd {h} {ns} {path} buf len r t full fits there =
      let back : from_path ops s.vfs path (some s.cwd) ≡ done (some h, s.vfs) =
        ap (λ (m : Outcome Text). m >>= λ name. from_path ops s.vfs name (some s.cwd)) (sym full)
        ∙ from_path-fullpath ops s.vfs (some s.cwd) r t in
      (
        chdir_known ops s path h back,
        getcwd_known (record s { cwd = h }) path buf len full fits there,
      )
