-- ===== src/Filesystem/Tests.antt =====
-- The theorems on src/filesystem at small systems of entries.
use ark_rust_kernel.Prelude.{
  ℕ, ◌==◌, ◌≡◌, ◌≢◌, refl, arith, Bool, true, List, [], ◌∷◌, some, none, done, ok, ◌>>=◌, negsuc,
  if◌then◌else◌,
}
use ark_rust_kernel.Prelude.Text.{bytes, get_name}
use ark_rust_kernel.Filesystem.Inode.{dir, new_dentry, Vfs}
use ark_rust_kernel.Filesystem.Dentry.{add_child, find_child, fullpath, from_path, get_parent}
use ark_rust_kernel.Filesystem.Dentry.Paths.{Reaches, at_root, IsRooted}
use ark_rust_kernel.Filesystem.Dentry.RoundTrip.{from_path-fullpath}
use ark_rust_kernel.Filesystem.Directory.{mkdir, get_child}
use ark_rust_kernel.Filesystem.Directory.Mkdir.{mkdir_vfs, mkdir_found, mkdir-Reaches}
use ark_rust_kernel.Filesystem.Directory.EmptyName.{mkdir_unreachable}
use ark_rust_kernel.Filesystem.Directory.Load.{lookup_found}
use ark_rust_kernel.Filesystem.Mount.{set_inode}
use ark_rust_kernel.Filesystem.Mount.Start.{started-IsRooted, dev-Reaches}
use ark_rust_kernel.Filesystem.Mount.Listing.{answer_of, mount_listed_empty}
use ark_rust_kernel.Filesystem.DirFile.{seek}
use ark_rust_kernel.Filesystem.DirFile.Clamp.{seek-clamp}
use ark_rust_kernel.Filesystem.Fatfs.{FatState, FatFsInode, fat_dir, inodes, lookup, read}
use ark_rust_kernel.Filesystem.Fatfs.Lookup.{fatfs-IsNaming}
use ark_rust_kernel.Filesystem.Fatfs.ReadAll.{Gives, read_all}
use ark_rust_kernel.Filesystem.Samples.{
  small_library, small-IsReader, small_state, small_inodes, fat_root, dev_only, mounted_root,
  mounted-IsRooted,
}
use ark_rust_kernel.Syscall.File.{seek_cur}

from_path-fullpath_example :
    (fullpath dev_only 1 >>= λ path. from_path small_inodes dev_only path none)
    ≡ done (some 1, dev_only)
from_path-fullpath_example =
    from_path-fullpath small_inodes dev_only none (started-IsRooted [] small_state 3)
      (dev-Reaches [] small_state 3)

abbrev with_tmp : Vfs (FatState (List ℕ))
with_tmp = add_child dev_only 1 (bytes "tmp") (new_dentry (some 1) (bytes "tmp") none dir)

mkdir_tmp : mkdir small_inodes dev_only 1 (bytes "tmp") ≡ done (ok 2, with_tmp)
unfolding get_name
mkdir_tmp = mkdir_vfs small_inodes dev_only 1 (bytes "tmp") refl refl refl

mkdir_found_example :
    IsRooted with_tmp
    × (fullpath with_tmp 2 ≡ done (bytes "/dev/tmp"))
    × (from_path small_inodes with_tmp (bytes "/dev/tmp") (some 1) ≡ done (some 2, with_tmp))
mkdir_found_example =
    mkdir_found small_inodes dev_only 1 (bytes "tmp") 2 with_tmp (some 1)
      (started-IsRooted [] small_state 3) (dev-Reaches [] small_state 3) refl refl refl mkdir_tmp

mkdir-Reaches_example : Reaches with_tmp 1 (bytes "dev" ∷ [])
mkdir-Reaches_example =
    mkdir-Reaches small_inodes dev_only 1 (bytes "tmp") 2 with_tmp (omega arith) mkdir_tmp
      (dev-Reaches [] small_state 3)

mkdir_unreachable_example :
    (get_parent small_inodes dev_only (bytes "/dev/") none ≡ done (some (1, []), dev_only))
    × (s' : Vfs (FatState (List ℕ))) × (h : ℕ) × (mkdir small_inodes dev_only 1 []
        ≡ done (ok h, s'))
    × (h ≢ 1)
    × (from_path small_inodes s' (bytes "/dev/") none ≡ done (some 1, s'))
unfolding get_name
mkdir_unreachable_example =
    mkdir_unreachable small_inodes dev_only none (started-IsRooted [] small_state 3)
      (dev-Reaches [] small_state 3) refl refl

-- The drop of an entry that nothing else holds
abbrev release_all : (ℕ → Bool) → ℕ → ℕ → Bool
release_all dropped h k = if k == h then true else dropped k

mount_listed_empty_example :
    (get_child small_inodes release_all dev_only 1 0 >>= λ r.
    answer_of (get_child small_inodes release_all (set_inode r.1 1 0) 1 0))
    ≡ done (ok none)
mount_listed_empty_example =
    mount_listed_empty small_inodes release_all dev_only 1 0 0 0 (omega arith) refl refl refl

seek-clamp_example :
    seek (record { dir_entry = 1; iterator = 5 }) (negsuc 8) seek_cur
    ≡ (ok 0, record { dir_entry = 1; iterator = 0 })
seek-clamp_example =
    seek-clamp (record { dir_entry = 1; iterator = 5 }) (negsuc 8) seek_cur (λ e. cc) (omega arith)

read_all_example :
    Gives small_library
      (λ l f. l)
      small-IsReader
      (read small_library (7 ∷ 8 ∷ 9 ∷ []) 0 2)
      0
      (7 ∷ 8 ∷ [])
read_all_example = read_all small_library (λ l f. l) small-IsReader (7 ∷ 8 ∷ 9 ∷ []) 0 2

-- The inode of `b`, and the root with `b` loaded
abbrev with_b : Vfs (FatState (List ℕ))
with_b =
    let b : FatFsInode = record {
      inode_n = 5;
      path = bytes "/b";
      fat_type = fat_dir;
      mountpoint = none;
      fs = 0;
    } in
    let s = record mounted_root { world = record small_state { inodes = fat_root ∷ b ∷ [] } } in
    add_child s 0 (bytes "b") (new_dentry (some 0) (bytes "b") (some 1) dir)

find_b : find_child small_inodes mounted_root 0 (bytes "b") ≡ done (some 1, with_b)
unfolding find_child inodes lookup get_name
find_b = refl

lookup_found_example :
    IsRooted with_b
    × (fullpath with_b 1 ≡ done (bytes "/b"))
    × (from_path small_inodes with_b (bytes "/b") none ≡ done (some 1, with_b))
unfolding get_name
lookup_found_example =
    lookup_found small_inodes mounted_root 0 (bytes "b") 1 with_b none
      (fatfs-IsNaming small_library) mounted-IsRooted at_root refl refl refl refl find_b
