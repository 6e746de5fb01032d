-- ===== src/Filesystem/Directory.antt =====
-- What src/filesystem/mod.rs does to a directory: `mkdir`, `link`, `get_child` and `open`.
pub mod Grow
pub mod Reach
pub mod Mkdir
pub mod EmptyName
pub mod Load
use ark_rust_kernel.Prelude.{
  ℕ, ◌+◌, Bool, true, false, ◌||◌, List, [], ◌∷◌, ◌++◌, Option, none, some, Outcome, done, panic,
  Result, ok, err, unwrap_ok, ◌>>=◌, length, set, get_elem?, if◌then◌else◌, String, map,
}
use ark_rust_kernel.Prelude.Text.{Text, same, get_name, insert_name, NameMap}
use ark_rust_kernel.Filesystem.Inode.{
  DirEntryType, file, dir, DirEntry, new_dentry, DirFile, OpenedFile, dir_file, inode_file, Inodes,
  Vfs, dentry,
}
use ark_rust_kernel.Filesystem.Dentry.{dot, dot_dot, add_child}

-- A result, and the state after it
abbrev pub Answer : Type 0 → Type 0 → Type 0
Answer W A = Outcome (Result String A × Vfs W)

module _ {W : Type 0} where
  abbrev pub get_inode : Vfs W → ℕ → Option ℕ
  get_inode s h = (dentry s h).inode

  -- A new entry in the map of children, which is the result
  abbrev pub add_new : Vfs W → ℕ → Text → Option ℕ → DirEntryType → Answer W ℕ
  add_new s h name inode type =
      done (ok (length s.dentries), add_child s h name (new_dentry (some h) name inode type))

  abbrev pub set_loaded : Vfs W → ℕ → Vfs W
  set_loaded s h =
      let there = record (dentry s h) { children_fully_loaded = true } in
      record s { dentries = set s.dentries h there }

  abbrev pub nth_child : Vfs W → ℕ → ℕ → Option ℕ
  nth_child s h i = get_elem? (map (λ (c : Text × ℕ). c.1) (dentry s h).children) i

module _ {W : Type 0} (ops : Inodes W) where
  open ops use {mkdir as inode_mkdir, link as inode_link, open_inode, read_dir, get_dentry_type}

  -- A directory without an inode has children without one. An inode that fails panics.
  abbrev pub inode_for_mkdir : Vfs W → ℕ → Text → Outcome (Option ℕ × W)
  inode_for_mkdir s h name = elim (get_inode s h) [
    | some inode ↦ inode_mkdir s.world inode name >>= λ r. unwrap_ok r.0 >>= λ i. done (some i, r.1)
    | none ↦ done (none, s.world)
  ]

  unfoldable pub mkdir : Vfs W → ℕ → Text → Answer W ℕ
  mkdir s h name =
      if same name dot || same name dot_dot
      then done (err "Try to mkdir of parent or self.", s)
      else (elim (get_name (dentry s h).children name) [
        | some _ ↦ done (err "Already existed.", s)
        | none ↦ inode_for_mkdir s h name >>= λ r. add_new (record s { world = r.1 }) h name r.0 dir
      ])

  -- In the code the parent's inode, if there is one, hides the inode that is to be linked.
  abbrev pub link_in_parent : Vfs W → ℕ → Text → Outcome W
  link_in_parent s h name = elim (get_inode s h) [
    | some inode ↦ inode_link s.world inode inode name >>= λ r. unwrap_ok r.0 >>= λ _. done r.1
    | none ↦ done s.world
  ]

  unfoldable pub link : Vfs W → ℕ → ℕ → Text → Answer W ℕ
  link s h inode name = elim (get_name (dentry s h).children name) [
    | some _ ↦ done (err "Already existed.", s)
    | none ↦ link_in_parent s h name >>= λ w.
        add_new (record s { world = w }) h name (some inode) (get_dentry_type w inode)
  ]

  unfoldable pub open_dentry : Vfs W → ℕ → ℕ → ℕ → Answer W OpenedFile
  open_dentry s h flags mode = elim (dentry s h).type_ [
    | file ↦ (elim (get_inode s h) [
      | some inode ↦ open_inode s.world inode h flags mode >>= λ r. elim r.0 [
        | ok f ↦ done (ok (inode_file f), record s { world = r.1 })
        | err e ↦ done (err e, record s { world = r.1 })
      ]
      | none ↦ done (err "No inode to open", s)
    ])
    | dir ↦ done (ok (dir_file (record { dir_entry = h; iterator = 0 })), s)
  ]

  module _ (release : (ℕ → Bool) → ℕ → ℕ → Bool) where
    -- One entry of `extend`: the `Arc` of a child of that name is dropped, and `release` says which
    -- entries have none left then.
    abbrev pub load_entry : Vfs W → ℕ → DirEntry → Vfs W
    load_entry s h d =
        let added = add_child s h d.name d in
        elim (get_name (dentry s h).children d.name) [
          | some old ↦ record added { dropped = release added.dropped old }
          | none ↦ added
        ]

    unfoldable pub extend : Vfs W → ℕ → List DirEntry → Vfs W
    extend s h [] = s
    extend s h (d ∷ ds) = extend (load_entry s h d) h ds

    abbrev pub load_children : Vfs W → ℕ → Answer W (Unit {0})
    load_children s h = elim (get_inode s h) [
      | some inode ↦ read_dir s.world inode h >>= λ r. elim r.0 [
        | ok ds ↦ done (ok tt, set_loaded (extend (record s { world = r.1 }) h ds) h)
        | err e ↦ done (err e, record s { world = r.1 })
      ]
      | none ↦ done (ok tt, set_loaded s h)
    ]

    unfoldable pub get_child : Vfs W → ℕ → ℕ → Answer W (Option ℕ)
    get_child s h i = elim (dentry s h).children_fully_loaded [
      | true ↦ done (ok (nth_child s h i), s)
      | false ↦ load_children s h >>= λ r. elim r.0 [
        | ok _ ↦ done (ok (nth_child r.1 h i), r.1)
        | err e ↦ done (err e, r.1)
      ]
    ]
