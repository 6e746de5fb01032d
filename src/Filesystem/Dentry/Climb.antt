-- ===== src/Filesystem/Dentry/Climb.antt =====
-- `fullpath` of src/filesystem/mod.rs on an entry that the root reaches: the loop ends within its
-- fuel, since a parent was made before its children.
use ark_rust_kernel.Prelude.{
  ℕ, zero, suc, ◌<◌, ◌≡◌, refl, ◌∙◌, ap, arith, true, false, List, [], ◌∷◌, ◌++◌, done, ◌>>=◌,
  length, if◌then◌else◌, Outcome, some,
}
use ark_rust_kernel.Prelude.Text.{Text, same, slash}
use ark_rust_kernel.Filesystem.Inode.{Vfs, dentry, upgrade}
use ark_rust_kernel.Filesystem.Dentry.{root_name, fullpath_loop, fullpath}
use ark_rust_kernel.Filesystem.Dentry.Paths.{
  is_name, prefix, names_with_slash, prefix-append, append_assoc, append_nil, IsChild, Reaches,
  at_root, child, IsRooted,
}

proper_not_root : (n : Text) → is_name n ≡ true → same n root_name ≡ false
proper_not_root [] h = cc
proper_not_root (c ∷ []) h = ground arith
proper_not_root (c ∷ d ∷ ds) h = ground arith

module _ {W : Type 0} (s : Vfs W) where
  -- What a round adds before the path
  abbrev grown : ℕ → Text → Text
  grown p path =
      let name = (dentry s p).name in
      if same name root_name then name ++ path else (name ++ (slash ∷ [])) ++ path

  pub upgrade_alive : (p : ℕ) → s.dropped p ≡ false → upgrade s p ≡ some p
  upgrade_alive p h = ground arith

  loop_child :
      {p h : ℕ} {n : Text} (fuel : ℕ) (path : Text)
      → IsChild s p n h
      → fullpath_loop s (suc fuel) h path ≡ fullpath_loop s fuel p (grown p path)
  unfolding fullpath_loop
  loop_child {p} {h} fuel path c = rw (fullpath_loop, c.back, upgrade_alive p c.alive) refl

  loop_top : (fuel : ℕ) (path : Text) → IsRooted s → fullpath_loop s (suc fuel) 0 path ≡ done path
  unfolding fullpath_loop
  loop_top fuel path r = rw (fullpath_loop, r.top) refl

  grown_root : (path : Text) → IsRooted s → grown 0 path ≡ slash ∷ path
  grown_root path r = rw (r.root_named) refl

  grown_child :
      {p h : ℕ} {n : Text} (path : Text) → IsChild s p n h → grown h path ≡ n ++ (slash ∷ path)
  grown_child {n = n} path c =
      rw (c.named, proper_not_root n c.proper) (append_assoc n (slash ∷ []) path)

  climb :
      {p : ℕ} {ns : List Text} (fuel : ℕ) (path : Text)
      → IsRooted s
      → Reaches s p ns
      → p < fuel
      → fullpath_loop s fuel p (grown p path) ≡ done (prefix ns ++ path)
  climb zero path r t h = elim h [ ]
  climb (suc fuel) path r at_root h = rw (grown_root path r) (loop_top fuel (slash ∷ path) r)
  climb (suc fuel) path r (child {h = q} {ns = ms} {n = n} t c) h =
      rw
        (
          loop_child fuel (grown q path) c,
          climb fuel (grown q path) r t (let lt = c.below in omega arith),
          grown_child path c,
          prefix-append ms n path,
        )
        refl

  fullpath_of :
      (h : ℕ) (path : Text)
      → fullpath_loop s (suc (length s.dentries)) h [] ≡ done path
      → fullpath s h ≡ done (path ++ (dentry s h).name)
  unfolding fullpath
  fullpath_of h path e =
      ap (λ (m : Outcome Text). m >>= λ looped. done (looped ++ (dentry s h).name)) e

  pub fullpath-child :
      {p h : ℕ} {ns : List Text} {n : Text}
      → IsRooted s
      → Reaches s p ns
      → IsChild s p n h
      → fullpath s h ≡ done (prefix ns ++ n)
  fullpath-child {p} {h} {ns} {n} r t c =
      let len = length s.dentries in
      let lt : p < len = (let below = c.below in let within = c.within in omega arith) in
      let looped : fullpath_loop s (suc len) h [] ≡ done (prefix ns ++ []) =
        loop_child len [] c ∙ climb len [] r t lt in
      rw (fullpath_of h (prefix ns ++ []) looped, append_nil (names_with_slash ns), c.named) refl

  pub fullpath-root : IsRooted s → fullpath s 0 ≡ done root_name
  fullpath-root r =
      let looped : fullpath_loop s (suc (length s.dentries)) 0 [] ≡ done [] =
        loop_top (length s.dentries) [] r in
      rw (fullpath_of 0 [] looped, r.root_named) refl
