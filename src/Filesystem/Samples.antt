-- ===== src/Filesystem/Samples.antt =====
-- Small systems of entries and a small FAT library, for the tests of src/filesystem.
use ark_rust_kernel.Prelude.{
  sym, ℕ, ◌≤◌, ◌≡◌, refl, ap, arith, true, false, List, [], ◌∷◌, ◌++◌, some, none, length, take,
  drop, ◌⊎◌, inl, inr, zero, suc,
}
use ark_rust_kernel.Prelude.Text.{bytes, slash}
use ark_rust_kernel.Filesystem.Inode.{dir, Vfs, Inodes}
use ark_rust_kernel.Filesystem.Dentry.{root_name}
use ark_rust_kernel.Filesystem.Dentry.Paths.{IsRooted}
use ark_rust_kernel.Filesystem.Fatfs.{FatLibrary, FatState, FatFsInode, fat_dir, inodes}
use ark_rust_kernel.Filesystem.Fatfs.ReadAll.{IsReader}
use ark_rust_kernel.Filesystem.Mount.Start.{started}

-- A library whose one file holds the bytes of its state, with an empty file `a` and a directory `b`.
abbrev pub small_library : FatLibrary (List ℕ)
small_library = record {
  root_dir = λ l fs. 0;
  open_dir = λ l d path. none;
  iter = λ l d.
      some (record { file_name = bytes "a"; first_cluster = none; is_directory = false })
      ∷ none
      ∷ some (record { file_name = bytes "b"; first_cluster = some 5; is_directory = true })
      ∷ [];
  open_file = λ l d path. some (0, l);
  entry_len = λ l d path. some (length l);
  cluster_size = λ l fs. some 512;
  total_clusters = λ l fs. some 9;
  new_fs = λ l device. some (0, l);
  seek_file = λ l f pos. (none, l);
  read_file = λ l f room. some (take room l, drop room l);
}

length-take-le : (n : ℕ) (l : List ℕ) → length (take n l) ≤ n
length-take-le zero l = omega arith
length-take-le (suc n) [] = omega arith
length-take-le (suc n) (x ∷ l) = omega (arith, length-take-le n l)

take-drop : (n : ℕ) (l : List ℕ) → l ≡ take n l ++ drop n l
take-drop zero l = refl
take-drop (suc n) [] = refl
take-drop (suc n) (x ∷ l) = ap (λ (r : List ℕ). x ∷ r) (take-drop n l)

take-nil : (n : ℕ) (l : List ℕ) → take n l ≡ [] → (n ≡ 0) ⊎ (l ≡ [])
take-nil zero l h = inl refl
take-nil (suc n) [] h = inr refl
take-nil (suc n) (x ∷ l) h = cc

pub small-IsReader : IsReader small_library (λ l f. l)
small-IsReader = record {
  fits = λ l f room bs l' e.
      (let same : take room l ≡ bs = cc in
        let short = length-take-le room l in rw (sym same) short);
  goes_on = λ l f room bs l' e.
      (let same : take room l ≡ bs = cc in
        let left : drop room l ≡ l' = cc in rw (sym same, sym left) (take-drop room l));
  ends = λ l f room l' e. (let same : take room l ≡ [] = cc in take-nil room l same);
}

-- The root of the mounted library, as its first inode.
abbrev pub fat_root : FatFsInode
fat_root = record {
  inode_n = 10;
  path = slash ∷ [];
  fat_type = fat_dir;
  mountpoint = some 0;
  fs = 0;
}

abbrev pub small_state : FatState (List ℕ)
small_state = record { inodes = fat_root ∷ []; library = 7 ∷ 8 ∷ 9 ∷ [] }

abbrev pub small_inodes : Inodes (FatState (List ℕ))
small_inodes = inodes small_library

-- What `init` leaves
abbrev pub dev_only : Vfs (FatState (List ℕ))
dev_only = started [] small_state 3

-- A root that the library is mounted on
abbrev pub mounted_root : Vfs (FatState (List ℕ))
mounted_root = record {
  dentries =
      record {
        parent = none;
        name = root_name;
        inode = some 0;
        type_ = dir;
        children = [];
        children_fully_loaded = false;
      }
      ∷ [];
  root_dentry = some 0;
  dropped = λ h. false;
  filesystems = [];
  world = small_state;
}

pub mounted-IsRooted : IsRooted mounted_root
mounted-IsRooted = record {
  first = refl;
  top = refl;
  root_named = refl;
  root_dir = refl;
  some_dentry = omega arith;
}
