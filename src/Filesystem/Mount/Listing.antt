-- ===== src/Filesystem/Mount/Listing.antt =====
-- A mount on a directory of src/filesystem/mod.rs that was listed before.
use ark_rust_kernel.Prelude.{
  ℕ, ◌<◌, ◌≡◌, ap, ◌∙◌, arith, Bool, true, false, [], Option, some, none, Outcome, done, Result, ok,
  String, ◌>>=◌, length, set, get_or-set_self, length-set,
}
use ark_rust_kernel.Filesystem.Inode.{file, new_dentry, DirEntry, Inodes, Vfs, dentry}
use ark_rust_kernel.Filesystem.Directory.{Answer, get_child, set_loaded}
use ark_rust_kernel.Filesystem.Mount.{set_inode}

-- Only the answer, without the state
abbrev pub answer_of : {W A : Type 0} → Answer W A → Outcome (Result String A)
answer_of m = m >>= λ r. done r.0

module _ {W : Type 0} (ops : Inodes W) (release : (ℕ → Bool) → ℕ → ℕ → Bool) (s : Vfs W)
    (h : ℕ) where
  get_child_loaded :
      (i : ℕ)
      → (dentry s h).children_fully_loaded ≡ true
      → (dentry s h).children ≡ []
      → get_child ops release s h i ≡ done (ok none, s)
  unfolding get_child
  get_child_loaded i loaded empty = ground (arith, loaded, empty)

  get_child_vfs :
      (i : ℕ)
      → h < length s.dentries
      → (dentry s h).children_fully_loaded ≡ false
      → (dentry s h).inode ≡ none
      → (dentry s h).children ≡ []
      → get_child ops release s h i ≡ done (ok none, set_loaded s h)
  unfolding get_child
  get_child_vfs i in_list unloaded vfs empty = ground (
    arith,
    unloaded,
    vfs,
    empty,
    get_or-set_self s.dentries h (record (dentry s h) { children_fully_loaded = true })
        (new_dentry none [] none file) in_list,
  )

module _ {W : Type 0} (ops : Inodes W) (release : (ℕ → Bool) → ℕ → ℕ → Bool) (s : Vfs W)
    (h inode : ℕ) where
  mounted : Vfs W
  mounted = set_inode (set_loaded s h) h inode

  at_mounted :
      h < length s.dentries
      → dentry mounted h ≡ record (dentry s h) { children_fully_loaded = true; inode = some inode }
  unfolding mounted
  at_mounted in_list =
      let listed : DirEntry = record (dentry s h) { children_fully_loaded = true } in
      let there = record (dentry (set_loaded s h) h) { inode = some inode } in
      let kept = length-set s.dentries h listed in
      get_or-set_self (set s.dentries h listed) h there _ (omega (arith, kept))
      ∙ ap (λ (e : DirEntry). record e { inode = some inode })
          (get_or-set_self s.dentries h listed _ in_list)

  -- An empty directory without an inode that was listed before an inode is mounted on it gives no
  -- child afterwards, at any place, whatever the inode holds.
  pub mount_listed_empty :
      (i j : ℕ)
      → h < length s.dentries
      → (dentry s h).children_fully_loaded ≡ false
      → (dentry s h).inode ≡ none
      → (dentry s h).children ≡ []
      → (get_child ops release s h i >>= λ r.
          answer_of (get_child ops release (set_inode r.1 h inode) h j))
        ≡ done (ok none)
  unfolding mounted
  mount_listed_empty i j in_list unloaded vfs empty =
      let at = at_mounted in_list in
      ap
        (λ (m : Answer W (Option ℕ)).
          m >>= λ r. answer_of (get_child ops release (set_inode r.1 h inode) h j))
        (get_child_vfs ops release s h i in_list unloaded vfs empty)
      ∙ ap (λ (m : Answer W (Option ℕ)). answer_of m)
          (get_child_loaded ops release mounted h j
            (ap (λ (e : DirEntry). e.children_fully_loaded) at)
            (ap (λ (e : DirEntry). e.children) at ∙ empty))
