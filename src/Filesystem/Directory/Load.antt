-- ===== src/Filesystem/Directory/Load.antt =====
-- A child that `get_parent` and `from_path` of src/filesystem/mod.rs load from an inode.
use mathlib.Core.Path.{subst}
use ark_rust_kernel.Prelude.{
  ℕ, ◌≡◌, refl, sym, ◌∙◌, true, false, List, ◌++◌, Option, some, none, length, Outcome, done,
  Option-cases, inl, inr, ◌>>=◌, >>=-eq-done,
}
use ark_rust_kernel.Prelude.Text.{Text, get_name}
use ark_rust_kernel.Filesystem.Inode.{dir, DirEntry, Vfs, Inodes, dentry}
use ark_rust_kernel.Filesystem.Dentry.{add_child, find_child, load_child, from_path, fullpath}
use ark_rust_kernel.Filesystem.Dentry.Paths.{is_name, prefix, IsChild, Reaches, IsRooted}
use ark_rust_kernel.Filesystem.Dentry.Climb.{fullpath-child}
use ark_rust_kernel.Filesystem.Dentry.RoundTrip.{from_path-prefix}
use ark_rust_kernel.Filesystem.Directory.Reach.{
  Reaches-kept, IsRooted-kept, IsChild-new, Reaches-world, IsRooted-world, Reaches-within,
}

-- What the file system relies on: an inode finds an entry of the name that it was asked for, below
-- the entry that it was asked by.
pub record IsNaming {W : Type 0} (ops : Inodes W) : Type 0 where
  pub names :
      (w : W) (inode : ℕ) (n : Text) (this_dentry : ℕ) (d : DirEntry) (w' : W)
      → ops.lookup w inode n this_dentry ≡ done (some d, w')
      → (d.parent ≡ some this_dentry) × (d.name ≡ n)

-- A child that was loaded
record IsLoaded {W : Type 0} (ops : Inodes W) (s : Vfs W) (p : ℕ) (n : Text) (h : ℕ) (s' : Vfs W)
    : Type 0 where
  pub inode : ℕ
  pub entry : DirEntry
  pub world : W
  pub found : ops.lookup s.world inode n p ≡ done (some entry, world)
  pub handle : length s.dentries ≡ h
  pub loaded : add_child (record s { world = world }) p entry.name entry ≡ s'

module _ {W : Type 0} (ops : Inodes W) (s : Vfs W) (p : ℕ) (n : Text) where
  abbrev pub ask : ℕ → Outcome (Option ℕ × Vfs W)
  ask inode = ops.lookup s.world inode n p >>= load_child ops s p

  pub find_child_asks :
      (inode : ℕ)
      → get_name (dentry s p).children n ≡ none
      → (dentry s p).inode ≡ some inode
      → find_child ops s p n ≡ ask inode
  unfolding find_child
  find_child_asks inode unloaded has = rw (find_child, unloaded, has) refl

  find_child_vfs :
      get_name (dentry s p).children n ≡ none
      → (dentry s p).inode ≡ none
      → find_child ops s p n ≡ done (none, s)
  unfolding find_child
  find_child_vfs unloaded vfs = rw (find_child, unloaded, vfs) refl

  load-IsLoaded :
      (inode h : ℕ) (s' : Vfs W) (d : Option DirEntry) (w : W)
      → ops.lookup s.world inode n p ≡ done (d, w)
      → load_child ops s p (d, w) ≡ done (some h, s')
      → IsLoaded ops s p n h s'
  load-IsLoaded inode h s' none w found e = cc
  load-IsLoaded inode h s' (some d) w found e = record {
    inode = inode;
    entry = d;
    world = w;
    found = found;
    handle = cc;
    loaded = cc;
  }

  find-IsLoaded :
      (h : ℕ) (s' : Vfs W)
      → get_name (dentry s p).children n ≡ none
      → find_child ops s p n ≡ done (some h, s')
      → IsLoaded ops s p n h s'
  find-IsLoaded h s' unloaded e = elim (Option-cases (dentry s p).inode) [
    | inl vfs ↦ let clash = sym (find_child_vfs unloaded vfs) ∙ e in cc
    | inr (inode, has) ↦
        let asked = sym (find_child_asks inode unloaded has) ∙ e in
        let (r, found, l) = >>=-eq-done (ops.lookup s.world inode n p) (load_child ops s p) asked in
        load-IsLoaded inode h s' r.0 r.1 found l
  ]

  -- Where inodes find what they are asked for, a child that is loaded from the inode of a directory
  -- that the root reaches is found by its path from then on, and the tree has its root still.
  pub lookup_found :
      {ns : List Text} (h : ℕ) (s' : Vfs W) (cwd : Option ℕ)
      → IsNaming ops
      → IsRooted s
      → Reaches s p ns
      → s.dropped p ≡ false
      → (dentry s p).type_ ≡ dir
      → is_name n ≡ true
      → get_name (dentry s p).children n ≡ none
      → find_child ops s p n ≡ done (some h, s')
      → IsRooted s'
        × (fullpath s' h ≡ done (prefix ns ++ n))
        × (from_path ops s' (prefix ns ++ n) cwd ≡ done (some h, s'))
  lookup_found {ns} h s' cwd naming r t alive in_dir proper unloaded e =
      let m = find-IsLoaded h s' unloaded e in
      let (back, named) = naming.names s.world m.inode n p m.entry m.world m.found in
      let in_list = Reaches-within s r t in
      let at = record s { world = m.world } in
      let made : add_child at p n m.entry ≡ s' =
        subst (λ k. add_child at p k m.entry ≡ s') named m.loaded in
      let rooted : IsRooted s' =
        subst (λ z. IsRooted z) made
          (IsRooted-kept at p n m.entry in_list unloaded (IsRooted-world s m.world r)) in
      let reached : Reaches s' p ns =
        subst (λ z. Reaches z p ns) made
          (Reaches-kept at p n m.entry in_list unloaded (Reaches-world s m.world t)) in
      let linked : IsChild s' p n h =
        subst (λ k. IsChild s' p n k) m.handle
          (subst (λ z. IsChild z p n (length s.dentries)) made
            (IsChild-new at p n m.entry in_list unloaded alive in_dir proper back named)) in
      (
        rooted,
        fullpath-child s' rooted reached linked,
        from_path-prefix ops s' cwd rooted reached linked,
      )
