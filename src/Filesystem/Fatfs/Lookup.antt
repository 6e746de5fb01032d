-- ===== src/Filesystem/Fatfs/Lookup.antt =====
-- `lookup` of src/filesystem/fatfs.rs keeps to what the tree of entries relies on, and panics on an
-- empty file.
use ark_rust_kernel.Prelude.{
  ℕ, ◌≡◌, refl, ◌∙◌, ap, ◌∷◌, ◌++◌, Option, some, none, Outcome, done, panic, unwrap, ◌>>=◌,
  get_elem?,
}
use ark_rust_kernel.Prelude.Text.{Text, slash, get_name}
use ark_rust_kernel.Filesystem.Inode.{DirEntry, Vfs, dentry}
use ark_rust_kernel.Filesystem.Dentry.{find_child, load_child}
use ark_rust_kernel.Filesystem.Directory.Load.{IsNaming, find_child_asks}
use ark_rust_kernel.Filesystem.Fatfs.{
  FatLibrary, FatState, FatFsInode, FatFsInodeType, fat_dir, fat_file, FatDirEntry, find_entry,
  found_dentry, search_through_iter, lookup_in, lookup, inodes,
}

module _ {L : Type 0} (lib : FatLibrary L) (s : FatState L) (n : Text) (this_dentry : ℕ) where
  abbrev Names : Outcome (Option DirEntry × FatState L) → Type 0
  Names m =
      (d : DirEntry) (s' : FatState L)
      → m ≡ done (some d, s')
      → (d.parent ≡ some this_dentry) × (d.name ≡ n)

  Names-none : (s' : FatState L) → Names (done (none, s'))
  Names-none s' d s'' e = cc

  Names-panic : Names panic
  Names-panic d s' e = cc

  Names-bind {ℓ} :
      {A : Type ℓ} (m : Outcome A) (f : A → Outcome (Option DirEntry × FatState L))
      → ((a : A) → Names (f a))
      → Names (m >>= f)
  Names-bind (done a) f h = h a
  Names-bind panic f h = Names-panic

  Names-option {ℓ} :
      {A : Type ℓ} (o : Option A) (m : Outcome (Option DirEntry × FatState L))
      (f : A → Outcome (Option DirEntry × FatState L))
      → Names m
      → ((a : A) → Names (f a))
      → Names (elim o [ some a ↦ f a | none ↦ m ])
  Names-option none m f hm hf = hm
  Names-option (some a) m f hm hf = hf a

  found-Names :
      (path : Text) (fs : ℕ) (e : FatDirEntry) → Names (found_dentry lib s n path fs this_dentry e)
  found-Names path fs e = Names-bind (unwrap e.first_cluster) _ (λ c d s' eq. (cc, cc))

  search-Names :
      (path : Text) (directory fs : ℕ)
      → Names (search_through_iter lib s n path directory fs this_dentry)
  search-Names path directory fs =
      Names-option (find_entry (lib.iter s.library directory) n) (done (none, s))
        (found_dentry lib s n path fs this_dentry) (Names-none s) (found-Names path fs)

  abbrev in_own_directory : FatFsInode → FatFsInodeType → Outcome (Option DirEntry × FatState L)
  in_own_directory i t = elim t [
    | fat_dir ↦ unwrap (lib.open_dir s.library (lib.root_dir s.library i.fs) i.path) >>= λ d.
        search_through_iter lib s n (i.path ++ (slash ∷ n)) d i.fs this_dentry
    | fat_file ↦ done (none, s)
  ]

  own-Names : (i : FatFsInode) (t : FatFsInodeType) → Names (in_own_directory i t)
  own-Names i fat_dir =
      Names-bind (unwrap (lib.open_dir s.library (lib.root_dir s.library i.fs) i.path)) _
        (λ d. search-Names (i.path ++ (slash ∷ n)) d i.fs)
  own-Names i fat_file = Names-none s

  lookup_in-Names : (i : FatFsInode) → Names (lookup_in lib s i n this_dentry)
  lookup_in-Names i =
      Names-option i.mountpoint (in_own_directory i i.fat_type)
        (λ fs. search_through_iter lib s n (slash ∷ n) (lib.root_dir s.library fs) fs this_dentry)
        (own-Names i i.fat_type) (λ fs. search-Names (slash ∷ n) (lib.root_dir s.library fs) fs)

  lookup-Names : (self : ℕ) → Names (lookup lib s self n this_dentry)
  unfolding lookup
  lookup-Names self =
      Names-bind (unwrap (get_elem? s.inodes self)) (λ i. lookup_in lib s i n this_dentry)
        lookup_in-Names

  search_panics :
      (path : Text) (directory fs : ℕ) (e : FatDirEntry)
      → find_entry (lib.iter s.library directory) n ≡ some e
      → e.first_cluster ≡ none
      → search_through_iter lib s n path directory fs this_dentry ≡ panic
  search_panics path directory fs e listed empty =
      ap
        (λ (o : Option FatDirEntry). elim o [
          | some e ↦ found_dentry lib s n path fs this_dentry e
          | none ↦ done (none, s)
        ])
        listed
      ∙ rw (empty) refl

  lookup_panics :
      (self fs : ℕ) (i : FatFsInode) (e : FatDirEntry)
      → get_elem? s.inodes self ≡ some i
      → i.mountpoint ≡ some fs
      → find_entry (lib.iter s.library (lib.root_dir s.library fs)) n ≡ some e
      → e.first_cluster ≡ none
      → lookup lib s self n this_dentry ≡ panic
  unfolding lookup
  lookup_panics self fs i e at mounted listed empty =
      ap (λ (o : Option FatFsInode). unwrap o >>= λ i. lookup_in lib s i n this_dentry) at
      ∙ ap
          (λ (m : Option ℕ). elim m [
            | some fs ↦
                search_through_iter lib s n (slash ∷ n) (lib.root_dir s.library fs) fs this_dentry
            | none ↦ in_own_directory i i.fat_type
          ])
          mounted
      ∙ search_panics (slash ∷ n) (lib.root_dir s.library fs) fs e listed empty

-- The inodes of a FAT file system find an entry of the name that they are asked for, below the
-- entry that they are asked by.
pub fatfs-IsNaming : {L : Type 0} (lib : FatLibrary L) → IsNaming (inodes lib)
unfolding inodes
fatfs-IsNaming lib = record {
  names = λ s inode n this_dentry d s' e. lookup-Names lib s n this_dentry inode d s' e;
}

-- In the root of a mounted FAT file system, a name that is not loaded yet and that the library
-- lists as an entry without a cluster panics.
pub find_child_empty_file_panics :
    {L : Type 0} (lib : FatLibrary L) (s : Vfs (FatState L)) (p self fs : ℕ) (i : FatFsInode)
    (n : Text) (e : FatDirEntry)
    → get_name (dentry s p).children n ≡ none
    → (dentry s p).inode ≡ some self
    → get_elem? s.world.inodes self ≡ some i
    → i.mountpoint ≡ some fs
    → find_entry (lib.iter s.world.library (lib.root_dir s.world.library fs)) n ≡ some e
    → e.first_cluster ≡ none
    → find_child (inodes lib) s p n ≡ panic
unfolding inodes
find_child_empty_file_panics {L} lib s p self fs i n e unloaded has at mounted listed empty =
    find_child_asks (inodes lib) s p n self unloaded has
    ∙ ap (λ (m : Outcome (Option DirEntry × FatState L)). m >>= load_child (inodes lib) s p)
        (lookup_panics lib s.world n p self fs i e at mounted listed empty)
