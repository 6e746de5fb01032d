-- ===== src/Filesystem/Mount/Start.antt =====
-- What `init` of src/filesystem/mod.rs leaves.
use ark_rust_kernel.Prelude.{
  ℕ, ◌≡◌, refl, ap, arith, false, [], ◌∷◌, some, none, done, ◌>>=◌, unwrap_ok,
}
use ark_rust_kernel.Prelude.Text.{bytes, get_name, insert_name, NameMap}
use ark_rust_kernel.Filesystem.Inode.{dir, new_dentry, Inodes, Vfs}
use ark_rust_kernel.Filesystem.Dentry.{add_child}
use ark_rust_kernel.Filesystem.Dentry.Paths.{Reaches, at_root, child, IsRooted}
use ark_rust_kernel.Filesystem.Directory.{Answer}
use ark_rust_kernel.Filesystem.Directory.Mkdir.{mkdir_vfs}
use ark_rust_kernel.Filesystem.Mount.{init, register_filesystem, with_root}

abbrev pub no_dentries : {W : Type 0} → NameMap ℕ → W → Vfs W
no_dentries filesystems w = record {
  dentries = [];
  root_dentry = none;
  dropped = λ h. false;
  filesystems = filesystems;
  world = w;
}

module _ {W : Type 0} (filesystems : NameMap ℕ) (w : W) (fatfs : ℕ) where
  abbrev pub started : Vfs W
  started =
      let top = with_root (no_dentries filesystems w) in
      register_filesystem
        (add_child top 0 (bytes "dev") (new_dentry (some 0) (bytes "dev") none dir)) (bytes "fatfs")
        fatfs

  pub started-IsRooted : IsRooted started
  started-IsRooted = record {
    first = refl;
    top = refl;
    root_named = refl;
    root_dir = refl;
    some_dentry = omega arith;
  }

  pub dev-Reaches : Reaches started 1 (bytes "dev" ∷ [])
  unfolding insert_name get_name
  dev-Reaches = child at_root (record {
    below = omega arith;
    within = omega arith;
    loaded = refl;
    back = refl;
    named = refl;
    alive = refl;
    in_dir = refl;
    proper = refl;
  })

module _ {W : Type 0} (ops : Inodes W) (filesystems : NameMap ℕ) (w : W) (fatfs : ℕ) where
  init_runs : init ops (no_dentries filesystems w) fatfs ≡ done (started filesystems w fatfs)
  unfolding init get_name
  init_runs =
      ap
        (λ (m : Answer W ℕ).
          m >>= λ r. unwrap_ok r.0 >>= λ _. done (register_filesystem r.1 (bytes "fatfs") fatfs))
        (mkdir_vfs ops (with_root (no_dentries filesystems w)) 0 (bytes "dev") refl refl refl)

  -- From a system without entries, `init` does not panic, and leaves the root and `/dev` in it.
  pub init-IsRooted :
      (s : Vfs W) × (init ops (no_dentries filesystems w) fatfs ≡ done s)
      × IsRooted s
      × Reaches s 1 (bytes "dev" ∷ [])
  init-IsRooted = (
    started filesystems w fatfs,
    init_runs,
    started-IsRooted filesystems w fatfs,
    dev-Reaches filesystems w fatfs,
  )
