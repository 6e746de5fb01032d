-- ===== src/Filesystem/Dentry/Paths.antt =====
-- The place of an entry in the tree of src/filesystem/mod.rs, as the names that lead to it.
use ark_rust_kernel.Prelude.{
  ℕ, ◌<◌, ◌≡◌, refl, arith, Bool, true, false, ◌&&◌, not, List, [], ◌∷◌, ◌++◌, some, none, length,
}
use ark_rust_kernel.Prelude.Text.{
  Text, same, slash, no_slash, split, split-no_slash, split-append, get_name,
}
use ark_rust_kernel.Filesystem.Inode.{dir, Vfs, dentry}
use ark_rust_kernel.Filesystem.Dentry.{dot, dot_dot, root_name}

-- A name that a path can hold
abbrev pub is_name : Text → Bool
is_name n = not (same n []) && not (same n dot) && not (same n dot_dot) && no_slash n

-- `/`, then each name with a slash
abbrev pub names_with_slash : List Text → Text
names_with_slash [] = []
names_with_slash (n ∷ ns) = n ++ (slash ∷ names_with_slash ns)

abbrev pub prefix : List Text → Text
prefix ns = slash ∷ names_with_slash ns

-- The loaded children lead from the root to the entry by these names, and the parents back.
module _ {W : Type 0} where
  pub record IsChild (s : Vfs W) (p : ℕ) (n : Text) (h : ℕ) : Type 0 where
    pub below : p < h
    pub within : h < length s.dentries
    pub loaded : get_name (dentry s p).children n ≡ some h
    pub back : (dentry s h).parent ≡ some p
    pub named : (dentry s h).name ≡ n
    pub alive : s.dropped p ≡ false
    pub in_dir : (dentry s p).type_ ≡ dir
    pub proper : is_name n ≡ true

  pub data Reaches (s : Vfs W) : ℕ → List Text → Type 0 where
    at_root : Reaches s 0 []
    child :
        {p h : ℕ} {ns : List Text} {n : Text}
        → Reaches s p ns
        → IsChild s p n h
        → Reaches s h (ns ++ (n ∷ []))

  -- The entry 0 is the root.
  pub record IsRooted (s : Vfs W) : Type 0 where
    pub first : s.root_dentry ≡ some 0
    pub top : (dentry s 0).parent ≡ none
    pub root_named : (dentry s 0).name ≡ root_name
    pub root_dir : (dentry s 0).type_ ≡ dir
    pub some_dentry : 0 < length s.dentries

pub append_assoc {ℓ} : {A : Type ℓ} (xs ys zs : List A) → (xs ++ ys) ++ zs ≡ xs ++ (ys ++ zs)
append_assoc [] ys zs = refl
append_assoc (x ∷ xs) ys zs = cc (append_assoc xs ys zs)

pub append_nil {ℓ} : {A : Type ℓ} (xs : List A) → xs ++ [] ≡ xs
append_nil [] = refl
append_nil (x ∷ xs) = cc (append_nil xs)

names_with_slash-append :
    (ns : List Text) (n rest : Text)
    → names_with_slash (ns ++ (n ∷ [])) ++ rest ≡ names_with_slash ns ++ (n ++ (slash ∷ rest))
names_with_slash-append [] n rest = append_assoc n (slash ∷ []) rest
names_with_slash-append (m ∷ ns) n rest =
    rw
      (
        append_assoc m (slash ∷ names_with_slash (ns ++ (n ∷ []))) rest,
        append_assoc m (slash ∷ names_with_slash ns) (n ++ (slash ∷ rest)),
        names_with_slash-append ns n rest,
      )
      refl

pub prefix-append :
    (ns : List Text) (n rest : Text)
    → prefix (ns ++ (n ∷ [])) ++ rest ≡ prefix ns ++ (n ++ (slash ∷ rest))
prefix-append ns n rest = cc (names_with_slash-append ns n rest)

abbrev pub all_names : List Text → Bool
all_names [] = true
all_names (n ∷ ns) = no_slash n && all_names ns

pub all_names-append :
    (ns : List Text) (n : Text)
    → all_names ns ≡ true
    → no_slash n ≡ true
    → all_names (ns ++ (n ∷ [])) ≡ true
all_names-append [] n a h = ground arith
all_names-append (m ∷ ns) n a h = ground (arith, all_names-append ns n)

both : (a b : Bool) → (a && b) ≡ true → (a ≡ true) × (b ≡ true)
both a b h = ground arith

-- The names are found again in the path that they make.
pub split-names :
    (ns : List Text) (n : Text)
    → all_names ns ≡ true
    → no_slash n ≡ true
    → split (names_with_slash ns ++ n) ≡ ns ++ (n ∷ [])
split-names [] n a h = split-no_slash n h
split-names (m ∷ ns) n a h =
    let (first, others) = both (no_slash m) (all_names ns) a in
    rw
      (
        append_assoc m (slash ∷ names_with_slash ns) n,
        split-append m (names_with_slash ns ++ n) first,
        split-names ns n others h,
      )
      refl

pub is_name-no_slash : (n : Text) → is_name n ≡ true → no_slash n ≡ true
is_name-no_slash n h = ground arith

module _ {W : Type 0} (s : Vfs W) where
  pub Reaches-all_names : {h : ℕ} {ns : List Text} → Reaches s h ns → all_names ns ≡ true
  Reaches-all_names at_root = refl
  Reaches-all_names (child {ns = ns} {n = n} r c) =
      all_names-append ns n (Reaches-all_names r) (is_name-no_slash n c.proper)
