-- ===== src/Filesystem/Directory/Grow.antt =====
-- A new child in the tree of src/filesystem/mod.rs: what was reached before is reached still.
use ark_rust_kernel.Prelude.{
  ℕ, ◌+◌, ◌<◌, ◌≡◌, ◌≢◌, sym, ◌∙◌, ap, arith, [], ◌∷◌, ◌++◌, none, length, set, get_or, length-set,
  length-append, get_or-set_self, get_or-set_ne, get_or-append_left, get_or-append_last,
}
use ark_rust_kernel.Prelude.Text.{Text, insert_name}
use ark_rust_kernel.Filesystem.Inode.{file, DirEntry, new_dentry, Vfs, dentry}
use ark_rust_kernel.Filesystem.Dentry.{add_child}

module _ {W : Type 0} (s : Vfs W) (p : ℕ) (n : Text) (d : DirEntry)
    (in_list : p < length s.dentries) where
  abbrev s' : Vfs W
  s' = add_child s p n d

  pub length-add_child : length s'.dentries ≡ length s.dentries + 1
  length-add_child =
      let here = dentry s p in
      let there : DirEntry = record here {
        children = insert_name here.children n (length s.dentries);
      } in
      length-append (set s.dentries p there) (d ∷ [])
      ∙ ap (λ (k : ℕ). k + 1) (length-set s.dentries p there)

  pub add_child-at_self :
      dentry s' p
      ≡ record (dentry s p) { children = insert_name (dentry s p).children n (length s.dentries) }
  add_child-at_self =
      let here = dentry s p in
      let there : DirEntry = record here {
        children = insert_name here.children n (length s.dentries);
      } in
      let kept = length-set s.dentries p there in
      get_or-append_left (set s.dentries p there) (d ∷ []) p _ (omega (arith, kept))
      ∙ get_or-set_self s.dentries p there _ in_list

  pub add_child-at_other : (q : ℕ) → q < length s.dentries → p ≢ q → dentry s' q ≡ dentry s q
  add_child-at_other q h ne =
      let here = dentry s p in
      let there : DirEntry = record here {
        children = insert_name here.children n (length s.dentries);
      } in
      let kept = length-set s.dentries p there in
      get_or-append_left (set s.dentries p there) (d ∷ []) q _ (omega (arith, kept))
      ∙ get_or-set_ne s.dentries p q there _ ne

  pub add_child-at_new : dentry s' (length s.dentries) ≡ d
  add_child-at_new =
      let here = dentry s p in
      let there : DirEntry = record here {
        children = insert_name here.children n (length s.dentries);
      } in
      let kept = length-set s.dentries p there in
      ap (λ (k : ℕ). get_or (set s.dentries p there ++ (d ∷ [])) k (new_dentry none [] none file))
        (sym kept)
      ∙ get_or-append_last (set s.dentries p there) d _
