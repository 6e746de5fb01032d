-- ===== src/Filesystem/Directory/Mkdir.antt =====
-- `mkdir` of src/filesystem/mod.rs: the new directory is found by its path, every other entry
-- where it was.
use mathlib.Core.Path.{subst}
use ark_rust_kernel.Prelude.{
  ℕ, ◌<◌, ◌≡◌, refl, sym, ◌∙◌, ap, arith, true, false, ◌||◌, List, ◌++◌, Option, some, none, length,
  inl, inr, Outcome, done, Option-cases, Bool-cases, Result, ok, err, String, ◌>>=◌, >>=-eq-done,
}
use ark_rust_kernel.Prelude.Text.{Text, same, get_name}
use ark_rust_kernel.Filesystem.Inode.{dir, new_dentry, Vfs, Inodes, dentry}
use ark_rust_kernel.Filesystem.Dentry.{add_child, dot, dot_dot, from_path, fullpath}
use ark_rust_kernel.Filesystem.Dentry.Paths.{is_name, prefix, IsChild, Reaches, IsRooted}
use ark_rust_kernel.Filesystem.Dentry.Climb.{fullpath-child}
use ark_rust_kernel.Filesystem.Dentry.RoundTrip.{from_path-prefix}
use ark_rust_kernel.Filesystem.Directory.{mkdir, add_new, inode_for_mkdir}
use ark_rust_kernel.Filesystem.Directory.Reach.{
  Reaches-kept, IsRooted-kept, IsChild-new, Reaches-world, IsRooted-world, Reaches-within,
}

-- A directory that was made
record IsMade {W : Type 0} (s : Vfs W) (p : ℕ) (n : Text) (h : ℕ) (s' : Vfs W) : Type 0 where
  pub inode : Option ℕ
  pub world : W
  pub fresh : get_name (dentry s p).children n ≡ none
  pub handle : length s.dentries ≡ h
  pub made : add_child (record s { world = world }) p n (new_dentry (some p) n inode dir) ≡ s'

module _ {W : Type 0} (ops : Inodes W) (s : Vfs W) (p : ℕ) (n : Text) where
  abbrev rest_of_mkdir : Outcome (Result String ℕ × Vfs W)
  rest_of_mkdir = inode_for_mkdir ops s p n >>= λ r. add_new (record s { world = r.1 }) p n r.0 dir

  mkdir_plain :
      (same n dot || same n dot_dot) ≡ false
      → get_name (dentry s p).children n ≡ none
      → mkdir ops s p n ≡ rest_of_mkdir
  unfolding mkdir
  mkdir_plain plain free = rw (plain, free) refl

  inode_for_vfs : (dentry s p).inode ≡ none → inode_for_mkdir ops s p n ≡ done (none, s.world)
  inode_for_vfs vfs = ground (arith, vfs)

  -- Without an inode a directory that is free is made.
  pub mkdir_vfs :
      (same n dot || same n dot_dot) ≡ false
      → get_name (dentry s p).children n ≡ none
      → (dentry s p).inode ≡ none
      → mkdir ops s p n
        ≡ done (ok (length s.dentries), add_child s p n (new_dentry (some p) n none dir))
  mkdir_vfs plain free vfs =
      mkdir_plain plain free
      ∙ ap
          (λ (m : Outcome (Option ℕ × W)).
            m >>= λ r. add_new (record s { world = r.1 }) p n r.0 dir)
          (inode_for_vfs vfs)

  rest-IsMade :
      (h : ℕ) (s' : Vfs W)
      → get_name (dentry s p).children n ≡ none
      → rest_of_mkdir ≡ done (ok h, s')
      → IsMade s p n h s'
  rest-IsMade h s' free e =
      let (r, _, f) =
        >>=-eq-done (inode_for_mkdir ops s p n)
          (λ r. add_new (record s { world = r.1 }) p n r.0 dir) e in
      record { inode = r.0; world = r.1; fresh = free; handle = cc; made = cc }

  -- What `mkdir` says of names that are taken or that it refuses
  mkdir_special :
      (same n dot || same n dot_dot) ≡ true
      → mkdir ops s p n ≡ done (err "Try to mkdir of parent or self.", s)
  unfolding mkdir
  mkdir_special special = rw (special) refl

  mkdir_taken :
      (h : ℕ)
      → (same n dot || same n dot_dot) ≡ false
      → get_name (dentry s p).children n ≡ some h
      → mkdir ops s p n ≡ done (err "Already existed.", s)
  unfolding mkdir
  mkdir_taken h plain taken = rw (plain, taken) refl

  mkdir-IsMade : (h : ℕ) (s' : Vfs W) → mkdir ops s p n ≡ done (ok h, s') → IsMade s p n h s'
  mkdir-IsMade h s' e = elim (Bool-cases (same n dot || same n dot_dot)) [
    | inl special ↦ let clash = sym (mkdir_special special) ∙ e in cc
    | inr plain ↦ (elim (Option-cases (get_name (dentry s p).children n)) [
      | inl free ↦ rest-IsMade h s' free (sym (mkdir_plain plain free) ∙ e)
      | inr (k, taken) ↦ let clash = sym (mkdir_taken k plain taken) ∙ e in cc
    ])
  ]

  -- A path that led to an entry leads there still after `mkdir` in a directory of the list.
  pub mkdir-Reaches :
      {q : ℕ} {ms : List Text} (h : ℕ) (s' : Vfs W)
      → p < length s.dentries
      → mkdir ops s p n ≡ done (ok h, s')
      → Reaches s q ms
      → Reaches s' q ms
  mkdir-Reaches {q} {ms} h s' in_list e t =
      let m = mkdir-IsMade h s' e in
      let d = new_dentry (some p) n m.inode dir in
      subst (λ z. Reaches z q ms) m.made
        (Reaches-kept (record s { world = m.world }) p n d in_list m.fresh
          (Reaches-world s m.world t))

  -- After a successful `mkdir` of a proper name in a directory that the root reaches, the tree has its
  -- root still, the full path of the new directory is that of its parent and the name, and that
  -- path leads to it, from any current directory, with nothing loaded.
  pub mkdir_found :
      {ns : List Text} (h : ℕ) (s' : Vfs W) (cwd : Option ℕ)
      → IsRooted s
      → Reaches s p ns
      → s.dropped p ≡ false
      → (dentry s p).type_ ≡ dir
      → is_name n ≡ true
      → mkdir ops s p n ≡ done (ok h, s')
      → IsRooted s'
        × (fullpath s' h ≡ done (prefix ns ++ n))
        × (from_path ops s' (prefix ns ++ n) cwd ≡ done (some h, s'))
  mkdir_found {ns} h s' cwd r t alive in_dir proper e =
      let m = mkdir-IsMade h s' e in
      let d = new_dentry (some p) n m.inode dir in
      let in_list = Reaches-within s r t in
      let at = record s { world = m.world } in
      let grown = add_child at p n d in
      let rooted : IsRooted s' =
        subst (λ z. IsRooted z) m.made
          (IsRooted-kept at p n d in_list m.fresh (IsRooted-world s m.world r)) in
      let reached : Reaches s' p ns = mkdir-Reaches h s' in_list e t in
      let linked : IsChild s' p n h =
        subst (λ k. IsChild s' p n k) m.handle
          (subst (λ z. IsChild z p n (length s.dentries)) m.made
            (IsChild-new at p n d in_list m.fresh alive in_dir proper refl refl)) in
      (
        rooted,
        fullpath-child s' rooted reached linked,
        from_path-prefix ops s' cwd rooted reached linked,
      )
