-- ===== src/Filesystem/Fatfs.antt =====
-- src/filesystem/fatfs.rs: the inodes and files of a FAT file system. The library `fatfs` is the
-- record FatLibrary over its state `L`; a file system, a directory and a file of it are numbers.
pub mod Lookup
pub mod ReadAll
use ark_rust_kernel.Prelude.{
  ℕ, zero, suc, ◌+◌, ◌-◌, ◌%◌, ◌^◌, ℤ, as_isize, Bool, true, false, List, [], ◌∷◌, ◌++◌, Option,
  none, some, Outcome, done, panic, unwrap, Result, ok, err, ◌>>=◌, length, get_elem?,
  if◌then◌else◌, String, bit_or,
}
use ark_rust_kernel.Prelude.Text.{Text, bytes, same, slash}
use ark_rust_kernel.Filesystem.Flags.{InodeStat}
use ark_rust_kernel.Filesystem.Inode.{
  DirEntryType, file, dir, DirEntry, new_dentry, OpenedFile, Inodes,
}
use ark_rust_kernel.Syscall.File.{SeekPosition, seek_set, seek_cur, seek_end}

-- `SeekFrom` of the library
pub data SeekFrom : Type 0 where
  from_start : ℕ → SeekFrom
  from_end from_current : ℤ → SeekFrom

-- An entry of a directory, as the library lists it.
pub record FatDirEntry : Type 0 where
  pub file_name : Text
  pub first_cluster : Option ℕ
  pub is_directory : Bool

-- A listing leaves an entry that cannot be read as `none`; `none` of a call is its error.
pub record FatLibrary (L : Type 0) : Type 0 where
  pub root_dir : L → ℕ → ℕ
  pub open_dir : L → ℕ → Text → Option ℕ
  pub iter : L → ℕ → List (Option FatDirEntry)
  pub open_file : L → ℕ → Text → Option (ℕ × L)
  pub entry_len : L → ℕ → Text → Option ℕ
  pub cluster_size : L → ℕ → Option ℕ
  pub total_clusters : L → ℕ → Option ℕ
  pub new_fs : L → OpenedFile → Option (ℕ × L)
  pub seek_file : L → ℕ → SeekFrom → Option ℕ × L
  pub read_file : L → ℕ → ℕ → Option (List ℕ × L)

pub data FatFsInodeType : Type 0 where
  fat_dir fat_file : FatFsInodeType

pub record FatFsInode : Type 0 where
  pub inode_n : ℕ
  pub path : Text
  pub fat_type : FatFsInodeType
  pub mountpoint : Option ℕ
  pub fs : ℕ

-- All inodes that were made, by their numbers, and the state of the library.
pub record FatState (L : Type 0) : Type 0 where
  pub inodes : List FatFsInode
  pub library : L

abbrev type_of_entry : Bool → FatFsInodeType
type_of_entry true = fat_dir
type_of_entry false = fat_file

abbrev dentry_type_of_entry : Bool → DirEntryType
dentry_type_of_entry true = dir
dentry_type_of_entry false = file

-- The first entry of that name that can be read
abbrev pub find_entry : List (Option FatDirEntry) → Text → Option FatDirEntry
find_entry [] name = none
find_entry (none ∷ rest) name = find_entry rest name
find_entry (some e ∷ rest) name = if same e.file_name name then some e else find_entry rest name

abbrev pub fat_dentry_type : FatFsInode → DirEntryType
fat_dentry_type i = elim i.fat_type [ fat_dir ↦ dir | fat_file ↦ file ]

-- How `FatFSFile::seek` and `FatFSDeviceWrapper::seek` name a position for each other
abbrev pub seek_from : ℕ → SeekPosition → SeekFrom
seek_from offset seek_set = from_start offset
seek_from offset seek_cur = from_current (as_isize offset)
seek_from offset seek_end = from_end (as_isize offset)

module _ {L : Type 0} (lib : FatLibrary L) where
  open lib use {
    root_dir, open_dir, iter, open_file, entry_len, cluster_size, total_clusters, new_fs, seek_file,
    read_file,
  }

  abbrev pub add_inode : FatState L → FatFsInode → FatState L
  add_inode s i = record s { inodes = s.inodes ++ (i ∷ []) }

  -- An entry without a cluster, as an empty file has none, panics.
  abbrev pub found_dentry :
      FatState L → Text → Text → ℕ → ℕ → FatDirEntry → Outcome (Option DirEntry × FatState L)
  found_dentry s name path fs this_dentry e = unwrap e.first_cluster >>= λ inode_n.
      let inode : FatFsInode = record {
        inode_n = inode_n;
        path = path;
        fat_type = type_of_entry e.is_directory;
        mountpoint = none;
        fs = fs;
      } in
      done (
        some (
            new_dentry (some this_dentry) name (some (length s.inodes))
              (dentry_type_of_entry e.is_directory)),
        add_inode s inode,
      )

  abbrev pub search_through_iter :
      FatState L → Text → Text → ℕ → ℕ → ℕ → Outcome (Option DirEntry × FatState L)
  search_through_iter s name path directory fs this_dentry =
      elim (find_entry (iter s.library directory) name) [
        | some e ↦ found_dentry s name path fs this_dentry e
        | none ↦ done (none, s)
      ]

  abbrev pub lookup_in : FatState L → FatFsInode → Text → ℕ → Outcome (Option DirEntry × FatState L)
  lookup_in s i name this_dentry = elim i.mountpoint [
    | some fs ↦ search_through_iter s name (slash ∷ name) (root_dir s.library fs) fs this_dentry
    | none ↦ (elim i.fat_type [
      | fat_dir ↦ unwrap (open_dir s.library (root_dir s.library i.fs) i.path) >>= λ d.
          search_through_iter s name (i.path ++ (slash ∷ name)) d i.fs this_dentry
      | fat_file ↦ done (none, s)
    ])
  ]

  unfoldable pub lookup : FatState L → ℕ → Text → ℕ → Outcome (Option DirEntry × FatState L)
  lookup s self name this_dentry =
      unwrap (get_elem? s.inodes self) >>= λ i. lookup_in s i name this_dentry

  -- What a directory lists, one inode and one entry for each that can be read
  unfoldable pub dentries_of :
      FatState L → FatFsInode → ℕ → List (Option FatDirEntry) → List DirEntry × FatState L
  dentries_of s i this_dentry [] = ([], s)
  dentries_of s i this_dentry (none ∷ rest) = dentries_of s i this_dentry rest
  dentries_of s i this_dentry (some e ∷ rest) =
      let inode : FatFsInode = record {
        inode_n = elim e.first_cluster [ some n ↦ n | none ↦ 0 ];
        path = i.path ++ (slash ∷ e.file_name);
        fat_type = type_of_entry e.is_directory;
        mountpoint = none;
        fs = i.fs;
      } in
      let d =
        new_dentry (some this_dentry) e.file_name (some (length s.inodes))
          (dentry_type_of_entry e.is_directory) in
      let (ds, s') = dentries_of (add_inode s inode) i this_dentry rest in (d ∷ ds, s')

  abbrev pub dir_to_read : FatState L → FatFsInode → Outcome ℕ
  dir_to_read s i =
      if same i.path (slash ∷ [])
      then done (root_dir s.library i.fs)
      else unwrap (open_dir s.library (root_dir s.library i.fs) i.path)

  unfoldable pub read_dir :
      FatState L → ℕ → ℕ → Outcome (Result String (List DirEntry) × FatState L)
  read_dir s self this_dentry = unwrap (get_elem? s.inodes self) >>= λ i. elim i.fat_type [
    | fat_file ↦ done (err "Cannot read dir on a file inode.", s)
    | fat_dir ↦ dir_to_read s i >>= λ d.
        let (ds, s') = dentries_of s i this_dentry (iter s.library d) in done (ok ds, s')
  ]

  -- A file is what the library opens. The entry, the flags and the mode are only kept.
  unfoldable pub open_inode : FatState L → ℕ → ℕ → ℕ → ℕ → Outcome (Result String ℕ × FatState L)
  open_inode s self dentry flags mode = unwrap (get_elem? s.inodes self) >>= λ i.
      unwrap (open_file s.library (root_dir s.library i.fs) i.path) >>= λ r.
      done (ok r.0, record s { library = r.1 })

  -- `DIRECTORY | RWX` and `REGULAR | RWX`
  abbrev pub type_bits : FatFsInodeType → ℕ
  type_bits fat_dir = 0x4000
  type_bits fat_file = 0x8000

  unfoldable pub get_stat : FatState L → ℕ → Outcome InodeStat
  get_stat s self = unwrap (get_elem? s.inodes self) >>= λ i.
      unwrap (cluster_size s.library i.fs) >>= λ block. done (record {
        ino = i.inode_n;
        mode = bit_or (type_bits i.fat_type) 0x1FF;
        nlink = 1;
        size = elim (entry_len s.library (root_dir s.library i.fs) i.path) [
          | some n ↦ n
          | none ↦ 0
        ];
        block_size = block;
      })

  unfoldable pub mount :
      FatState L → ℕ → Option OpenedFile → ℕ → Outcome (Result String ℕ × FatState L)
  mount s self device mount_point = elim device [
    | some f ↦ unwrap (new_fs s.library f) >>= λ r. unwrap (total_clusters r.1 r.0) >>= λ clusters.
        let inode : FatFsInode = record {
          inode_n = (clusters + 1) % 2 ^ 32;
          path = slash ∷ [];
          fat_type = fat_dir;
          mountpoint = some r.0;
          fs = r.0;
        } in
        done (ok (length s.inodes), add_inode (record s { library = r.1 }) inode)
    | none ↦ done (err "Must provided device file for fatfs", s)
  ]

  -- `link` and `mkdir` are still to be written, and panic.
  unfoldable pub inodes : Inodes (FatState L)
  inodes = record {
    lookup = lookup;
    link = λ s self inode name. panic;
    mkdir = λ s self name. panic;
    read_dir = read_dir;
    open_inode = open_inode;
    get_dentry_type =
        λ s self. elim (get_elem? s.inodes self) [ some i ↦ fat_dentry_type i | none ↦ file ];
    get_stat = get_stat;
    mount_fs = mount;
  }

  -- `FatFSFile::seek`
  unfoldable pub seek : L → ℕ → ℕ → SeekPosition → Result String ℕ × L
  seek l f offset whence = elim (seek_file l f (seek_from offset whence)).0 [
    | some pos ↦ (ok pos, (seek_file l f (seek_from offset whence)).1)
    | none ↦ (err "seek failed for fatfs.", (seek_file l f (seek_from offset whence)).1)
  ]

  -- The loop of `FatFSFile::read`, which goes on until the library reads nothing. `room` is what is
  -- left of the buffer, `got` what was read; on fuel.
  unfoldable pub read_loop : ℕ → L → ℕ → ℕ → List ℕ → Outcome (List ℕ × L)
  read_loop zero l f room got = panic
  read_loop (suc fuel) l f room got = unwrap (read_file l f room) >>= λ r. elim r.0 [
    | [] ↦ done (got, r.1)
    | x ∷ xs ↦ read_loop fuel r.1 f (room - length r.0) (got ++ r.0)
  ]

  unfoldable pub read : L → ℕ → ℕ → Outcome (List ℕ × L)
  read l f room = read_loop (suc room) l f room []
