-- ===== src/Filesystem/Dentry.antt =====
-- Paths of src/filesystem/mod.rs: `get_parent`, `from_path` and `fullpath`. A loaded child is
-- taken from its parent, any other is looked up by the parent's inode.
pub mod Paths
pub mod Climb
pub mod RoundTrip
use ark_rust_kernel.Prelude.{
  ℕ, zero, suc, ◌+◌, Bool, true, false, ◌||◌, List, [], ◌∷◌, ◌++◌, Option, none, some, Outcome,
  done, panic, unwrap, ◌>>=◌, length, set, drop, if◌then◌else◌,
}
use ark_rust_kernel.Prelude.Text.{
  Text, same, slash, starts_with_slash, split, get_name, insert_name, NameMap,
}
use ark_rust_kernel.Filesystem.Inode.{
  DirEntryType, file, dir, DirEntry, Inodes, Vfs, dentry, upgrade,
}

abbrev pub dot : Text
dot = b'.' ∷ []

abbrev pub dot_dot : Text
dot_dot = b'.' ∷ b'.' ∷ []

abbrev pub root_name : Text
root_name = slash ∷ []

abbrev pub is_dir : DirEntryType → Bool
is_dir file = false
is_dir dir = true

module _ {W : Type 0} where
  abbrev pub root : Vfs W → Outcome ℕ
  root s = unwrap s.root_dentry

  -- `..`: the parent, if it is still there, or the root
  abbrev pub parent_or_root : Vfs W → ℕ → Outcome ℕ
  parent_or_root s h = elim (dentry s h).parent [ some p ↦ unwrap (upgrade s p) | none ↦ root s ]

  -- A new `Arc` for an entry, which becomes the child of that name.
  abbrev pub add_child : Vfs W → ℕ → Text → DirEntry → Vfs W
  add_child s parent name d =
      let here = dentry s parent in
      let there = record here { children = insert_name here.children name (length s.dentries) } in
      record s { dentries = set s.dentries parent there ++ (d ∷ []) }

  -- The loop that makes the path of the parents, on fuel.
  unfoldable pub fullpath_loop : Vfs W → ℕ → ℕ → Text → Outcome Text
  fullpath_loop s zero cur path = panic
  fullpath_loop s (suc fuel) cur path = elim (dentry s cur).parent [
    | some p ↦ unwrap (upgrade s p) >>= λ d.
        let name = (dentry s d).name in
        fullpath_loop s fuel d
          (if same name root_name then name ++ path else (name ++ (slash ∷ [])) ++ path)
    | none ↦ done path
  ]

  unfoldable pub fullpath : Vfs W → ℕ → Outcome Text
  fullpath s h =
      fullpath_loop s (suc (length s.dentries)) h [] >>= λ path. done (path ++ (dentry s h).name)

-- The directory that a path starts from, and the path without a leading slash
abbrev pub start_of : ℕ → Option ℕ → Text → ℕ × Text
start_of r none path = if starts_with_slash path then (r, drop 1 path) else (r, path)
start_of r (some cwd) path = if starts_with_slash path then (r, drop 1 path) else (cwd, path)

module _ {W : Type 0} (ops : Inodes W) where
  open ops use {lookup}

  -- What the inode of the parent found becomes a child, by its own name.
  abbrev pub load_child : Vfs W → ℕ → Option DirEntry × W → Outcome (Option ℕ × Vfs W)
  load_child s parent (none, w) = done (none, record s { world = w })
  load_child s parent (some d, w) =
      done (some (length s.dentries), add_child (record s { world = w }) parent d.name d)

  unfoldable pub find_child : Vfs W → ℕ → Text → Outcome (Option ℕ × Vfs W)
  find_child s parent name = elim (get_name (dentry s parent).children name) [
    | some child ↦ done (some child, s)
    | none ↦ (elim (dentry s parent).inode [
      | some inode ↦ lookup s.world inode name parent >>= load_child s parent
      | none ↦ done (none, s)
    ])
  ]

  -- One name that is not the last
  unfoldable pub descend : Vfs W → ℕ → Text → Outcome (Option ℕ × Vfs W)
  descend s parent name =
      if same name dot_dot
      then (parent_or_root s parent >>= λ p. done (some p, s))
      else if same name dot || same name []
      then done (some parent, s)
      else if is_dir (dentry s parent).type_
      then find_child s parent name
      else done (none, s)

  unfoldable pub walk : Vfs W → ℕ → List Text → Outcome (Option (ℕ × Text) × Vfs W)
  walk s parent [] = done (some (parent, []), s)
  walk s parent (name ∷ []) = done (some (parent, name), s)
  walk s parent (name ∷ next ∷ rest) = descend s parent name >>= λ r. elim r.0 [
    | some p ↦ walk r.1 p (next ∷ rest)
    | none ↦ done (none, r.1)
  ]

  unfoldable pub get_parent : Vfs W → Text → Option ℕ → Outcome (Option (ℕ × Text) × Vfs W)
  get_parent s path cwd =
      root s >>= λ r. let start = start_of r cwd path in walk s start.0 (split start.1)

  -- The last name
  unfoldable pub target : Vfs W → ℕ → Text → Outcome (Option ℕ × Vfs W)
  target s parent name =
      if same name dot_dot
      then (parent_or_root s parent >>= λ p. done (some p, s))
      else if same name dot || same name []
      then done (some parent, s)
      else find_child s parent name

  unfoldable pub from_path : Vfs W → Text → Option ℕ → Outcome (Option ℕ × Vfs W)
  from_path s path cwd =
      if same path root_name
      then (root s >>= λ r. done (some r, s))
      else (get_parent s path cwd >>= λ found. elim found.0 [
        | some (parent, name) ↦ target found.1 parent name
        | none ↦ done (none, found.1)
      ])
