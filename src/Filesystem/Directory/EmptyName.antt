-- ===== src/Filesystem/Directory/EmptyName.antt =====
-- `mkdir` of src/filesystem/mod.rs with the empty name, which `get_parent` gives for a path that
-- ends in a slash.
use ark_rust_kernel.Prelude.{
  ℕ, ◌≡◌, ◌≢◌, refl, sym, ◌∙◌, ap, arith, true, false, List, [], ◌∷◌, ◌++◌, Option, some, none,
  length, done, ok,
}
use ark_rust_kernel.Prelude.Text.{Text, same, get_name, slash}
use ark_rust_kernel.Filesystem.Inode.{dir, new_dentry, Vfs, Inodes, dentry}
use ark_rust_kernel.Filesystem.Dentry.{add_child, root_name, target, get_parent, from_path}
use ark_rust_kernel.Filesystem.Dentry.Paths.{
  prefix, names_with_slash, append_nil, is_name, Reaches, at_root, child, IsRooted,
}
use ark_rust_kernel.Filesystem.Dentry.RoundTrip.{get_parent-prefix, from_path-root}
use ark_rust_kernel.Filesystem.Directory.{mkdir}
use ark_rust_kernel.Filesystem.Directory.Mkdir.{mkdir_vfs}
use ark_rust_kernel.Filesystem.Directory.Reach.{Reaches-kept, IsRooted-kept, Reaches-within}

longer_than_root :
    (ns : List Text) (n : Text)
    → is_name n ≡ true
    → same (prefix (ns ++ (n ∷ []))) root_name ≡ false
longer_than_root [] [] h = cc
longer_than_root [] (c ∷ cs) h = ground arith
longer_than_root ([] ∷ ns) n h = ground arith
longer_than_root ((c ∷ cs) ∷ ns) n h = ground arith

module _ {W : Type 0} (ops : Inodes W) (s : Vfs W) where
  get_parent-slash :
      {p : ℕ} {ns : List Text} (cwd : Option ℕ)
      → IsRooted s
      → Reaches s p ns
      → get_parent ops s (prefix ns) cwd ≡ done (some (p, []), s)
  get_parent-slash {p} {ns} cwd r t =
      ap (λ (l : Text). get_parent ops s (slash ∷ l) cwd) (sym (append_nil (names_with_slash ns)))
      ∙ get_parent-prefix ops s [] cwd r t refl

  -- The path of a directory with a slash after it leads to the directory.
  from_path-slash :
      {p : ℕ} {ns : List Text} (cwd : Option ℕ)
      → IsRooted s
      → Reaches s p ns
      → from_path ops s (prefix ns) cwd ≡ done (some p, s)
  unfolding from_path target
  from_path-slash cwd r at_root = from_path-root ops s cwd r
  from_path-slash cwd r (child {h = q} {ns = ns} {n = n} t c) =
      rw (longer_than_root ns n c.proper, get_parent-slash cwd r (child t c)) refl

module _ {W : Type 0} (ops : Inodes W) (s : Vfs W) where
  -- For a directory without an inode, where no child has the empty name, the path of the
  -- directory with a slash after it asks `mkdir` for the empty name, `mkdir` makes a new entry, and
  -- the path leads to the directory and not to the new entry.
  pub mkdir_unreachable :
      {p : ℕ} {ns : List Text} (cwd : Option ℕ)
      → IsRooted s
      → Reaches s p ns
      → get_name (dentry s p).children [] ≡ none
      → (dentry s p).inode ≡ none
      → (get_parent ops s (prefix ns) cwd ≡ done (some (p, []), s))
        × (s' : Vfs W) × (h : ℕ) × (mkdir ops s p [] ≡ done (ok h, s'))
        × (h ≢ p)
        × (from_path ops s' (prefix ns) cwd ≡ done (some p, s'))
  mkdir_unreachable {p} {ns} cwd r t free vfs =
      let d = new_dentry (some p) [] none dir in
      let in_list = Reaches-within s r t in
      (
        get_parent-slash ops s cwd r t,
        add_child s p [] d,
        length s.dentries,
        mkdir_vfs ops s p [] refl free vfs,
        (λ e. omega arith),
        from_path-slash ops (add_child s p [] d) cwd (IsRooted-kept s p [] d in_list free r)
            (Reaches-kept s p [] d in_list free t),
      )
