-- ===== src/Filesystem/Inode.antt =====
-- `DirEntry` and what the file system asks of an inode, a file system and a file, the traits of
-- src/filesystem/mod.rs. An `Arc<DirEntry>` is its place in a list of all entries that were ever
-- made; an inode and a file are numbers. `W` is the state of the implementations of the traits.
use ark_rust_kernel.Prelude.{
  ℕ, Bool, true, false, List, [], Option, none, some, Outcome, Result, String, get_or,
}
use ark_rust_kernel.Prelude.Text.{Text, NameMap}
use ark_rust_kernel.Filesystem.Flags.{InodeStat}

pub data DirEntryType : Type 0 where
  file dir : DirEntryType

-- The parent is a `Weak`.
pub record DirEntry : Type 0 where
  pub parent : Option ℕ
  pub name : Text
  pub inode : Option ℕ
  pub type_ : DirEntryType
  pub children : NameMap ℕ
  pub children_fully_loaded : Bool

abbrev pub new_dentry : Option ℕ → Text → Option ℕ → DirEntryType → DirEntry
new_dentry parent name inode type = record {
  parent = parent;
  name = name;
  inode = inode;
  type_ = type;
  children = [];
  children_fully_loaded = false;
}

-- A file that was opened: the place in a directory, or what an inode gives.
pub record DirFile : Type 0 where
  pub dir_entry : ℕ
  pub iterator : ℕ

pub data OpenedFile : Type 0 where
  dir_file : DirFile → OpenedFile
  inode_file : ℕ → OpenedFile

-- The traits `Inode` and `Filesystem`: a method takes the state, `self`, and its arguments. A method
-- may panic.
pub record Inodes (W : Type 0) : Type 0 where
  pub lookup : W → ℕ → Text → ℕ → Outcome (Option DirEntry × W)
  pub link : W → ℕ → ℕ → Text → Outcome (Result String (Unit {0}) × W)
  pub mkdir : W → ℕ → Text → Outcome (Result String ℕ × W)
  pub read_dir : W → ℕ → ℕ → Outcome (Result String (List DirEntry) × W)
  pub open_inode : W → ℕ → ℕ → ℕ → ℕ → Outcome (Result String ℕ × W)
  pub get_dentry_type : W → ℕ → DirEntryType
  pub get_stat : W → ℕ → Outcome InodeStat
  pub mount_fs : W → ℕ → Option OpenedFile → ℕ → Outcome (Result String ℕ × W)

-- All entries, the root, which entries have no `Arc` left, the file systems by their names, and the
-- state of their implementations.
pub record Vfs (W : Type 0) : Type 0 where
  pub dentries : List DirEntry
  pub root_dentry : Option ℕ
  pub dropped : ℕ → Bool
  pub filesystems : NameMap ℕ
  pub world : W

module _ {W : Type 0} where
  -- What an `Arc` points to. Every `Arc` is in the list, so the default is not read.
  abbrev pub dentry : Vfs W → ℕ → DirEntry
  dentry s h = get_or s.dentries h (new_dentry none [] none file)

  -- `Weak::upgrade`
  abbrev pub upgrade : Vfs W → ℕ → Option ℕ
  upgrade s h = elim (s.dropped h) [ true ↦ none | false ↦ some h ]
