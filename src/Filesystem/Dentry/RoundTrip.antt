-- ===== src/Filesystem/Dentry/RoundTrip.antt =====
-- `from_path` of src/filesystem/mod.rs on the path that `fullpath` gives.
use ark_rust_kernel.Prelude.{
  ℕ, ◌≡◌, refl, ◌∙◌, ap, arith, true, false, List, [], ◌∷◌, ◌++◌, done, ◌>>=◌, Outcome, some, none,
  Option, unwrap, ◌||◌,
}
use ark_rust_kernel.Prelude.Text.{Text, same, slash, no_slash, split}
use ark_rust_kernel.Filesystem.Inode.{Vfs, Inodes}
use ark_rust_kernel.Filesystem.Dentry.{
  root, root_name, dot, dot_dot, fullpath, find_child, descend, walk, get_parent, target, from_path,
  start_of,
}
use ark_rust_kernel.Filesystem.Dentry.Paths.{
  is_name, prefix, names_with_slash, append_assoc, split-names, is_name-no_slash, IsChild, Reaches,
  at_root, child, IsRooted, Reaches-all_names,
}
use ark_rust_kernel.Filesystem.Dentry.Climb.{fullpath-child, fullpath-root}

not_dots :
    (n : Text) → is_name n ≡ true → (same n dot_dot ≡ false) × ((same n dot || same n []) ≡ false)
not_dots n h = ground arith

not_only_root :
    (ns : List Text) (n : Text) → is_name n ≡ true → same (prefix ns ++ n) root_name ≡ false
not_only_root [] [] h = cc
not_only_root [] (c ∷ cs) h = ground arith
not_only_root ([] ∷ ns) n h = ground arith
not_only_root ((c ∷ cs) ∷ ns) n h = ground arith

module _ {W : Type 0} (ops : Inodes W) (s : Vfs W) where
  find_loaded : {p h : ℕ} {n : Text} → IsChild s p n h → find_child ops s p n ≡ done (some h, s)
  unfolding find_child
  find_loaded c = rw (find_child, c.loaded) refl

  descend_loaded : {p h : ℕ} {n : Text} → IsChild s p n h → descend ops s p n ≡ done (some h, s)
  unfolding descend
  descend_loaded {p} {h} {n} c =
      let (up, stay) = not_dots n c.proper in rw (up, stay, c.in_dir) (find_loaded c)

  target_loaded : {p h : ℕ} {n : Text} → IsChild s p n h → target ops s p n ≡ done (some h, s)
  unfolding target
  target_loaded {p} {h} {n} c =
      let (up, stay) = not_dots n c.proper in rw (up, stay) (find_loaded c)

  walk_step :
      {p h : ℕ} {n : Text} (m : Text) (rest : List Text)
      → IsChild s p n h
      → walk ops s p (n ∷ m ∷ rest) ≡ walk ops s h (m ∷ rest)
  unfolding walk
  walk_step {p} {h} {n} m rest c =
      ap
        (λ (r : Outcome (Option ℕ × Vfs W)).
          r >>= λ r. elim r.0 [ some p ↦ walk ops r.1 p (m ∷ rest) | none ↦ done (none, r.1) ])
        (descend_loaded c)

  -- The names lead to the entry, whatever comes after them.
  walk_names :
      {p : ℕ} {ns : List Text} (m : Text) (rest : List Text)
      → Reaches s p ns
      → walk ops s 0 (ns ++ (m ∷ rest)) ≡ walk ops s p (m ∷ rest)
  walk_names m rest at_root = refl
  walk_names m rest (child {ns = ns} {n = n} t c) =
      rw (append_assoc ns (n ∷ []) (m ∷ rest)) (walk_names n (m ∷ rest) t ∙ walk_step m rest c)

  root_found : IsRooted s → root s ≡ done 0
  root_found r = ap (λ (o : Option ℕ). unwrap o) r.first

  abbrev walk_from : ℕ × Text → Outcome (Option (ℕ × Text) × Vfs W)
  walk_from start = walk ops s start.0 (split start.1)

  get_parent_from_root :
      (path : Text) (cwd : Option ℕ)
      → IsRooted s
      → get_parent ops s path cwd ≡ walk_from (start_of 0 cwd path)
  unfolding get_parent
  get_parent_from_root path cwd r =
      ap (λ (m : Outcome ℕ). m >>= λ top. walk_from (start_of top cwd path)) (root_found r)

  from_slash :
      (rest : Text) (cwd : Option ℕ)
      → walk_from (start_of 0 cwd (slash ∷ rest)) ≡ walk ops s 0 (split rest)
  from_slash rest none = refl
  from_slash rest (some d) = refl

  last_name : (p : ℕ) (n : Text) → walk ops s p (n ∷ []) ≡ done (some (p, n), s)
  unfolding walk
  last_name p n = refl

  pub get_parent-prefix :
      {p : ℕ} {ns : List Text} (n : Text) (cwd : Option ℕ)
      → IsRooted s
      → Reaches s p ns
      → no_slash n ≡ true
      → get_parent ops s (prefix ns ++ n) cwd ≡ done (some (p, n), s)
  get_parent-prefix {p} {ns} n cwd r t h =
      let pieces = split-names ns n (Reaches-all_names s t) h in
      get_parent_from_root (prefix ns ++ n) cwd r
      ∙ from_slash (names_with_slash ns ++ n) cwd
      ∙ ap (λ (l : List Text). walk ops s 0 l) pieces
      ∙ walk_names n [] t
      ∙ last_name p n

  pub from_path-prefix :
      {p h : ℕ} {ns : List Text} {n : Text} (cwd : Option ℕ)
      → IsRooted s
      → Reaches s p ns
      → IsChild s p n h
      → from_path ops s (prefix ns ++ n) cwd ≡ done (some h, s)
  unfolding from_path
  from_path-prefix {p} {h} {ns} {n} cwd r t c =
      rw (not_only_root ns n c.proper, get_parent-prefix n cwd r t (is_name-no_slash n c.proper))
        (target_loaded c)

  pub from_path-root :
      (cwd : Option ℕ) → IsRooted s → from_path ops s root_name cwd ≡ done (some 0, s)
  unfolding from_path
  from_path-root cwd r = ap (λ (m : Outcome ℕ). m >>= λ top. done (some top, s)) (root_found r)

  -- The full path of an entry that the root reaches by loaded children, whose names are not
  -- empty, not `.` or `..`, and have no slash, leads back to that entry, from any current directory,
  -- and nothing is loaded.
  pub from_path-fullpath :
      {h : ℕ} {ns : List Text} (cwd : Option ℕ)
      → IsRooted s
      → Reaches s h ns
      → (fullpath s h >>= λ path. from_path ops s path cwd) ≡ done (some h, s)
  from_path-fullpath cwd r at_root = rw (fullpath-root s r) (from_path-root cwd r)
  from_path-fullpath cwd r (child t c) = rw (fullpath-child s r t c) (from_path-prefix cwd r t c)
