-- ===== src/Filesystem/Directory/Reach.antt =====
-- `mkdir` of src/filesystem/mod.rs keeps the tree: the new directory is found by its path.
use ark_rust_kernel.Prelude.{
  ℕ, ◌<◌, ◌≡◌, ◌≢◌, refl, sym, ◌∙◌, ap, arith, Bool, true, false, List, Option, some, none, length,
  ◌⊎◌, inl, inr,
}
use mathlib.Core.Path.{subst}
use ark_rust_kernel.Prelude.Text.{
  Text, NameMap, same, same→≡, get_name, get_name-insert_self, get_name-insert_other,
}
use ark_rust_kernel.Filesystem.Inode.{dir, DirEntry, Vfs, dentry}
use ark_rust_kernel.Filesystem.Dentry.{add_child}
use ark_rust_kernel.Filesystem.Dentry.Paths.{is_name, IsChild, Reaches, at_root, child, IsRooted}
use ark_rust_kernel.Filesystem.Directory.Grow.{
  length-add_child, add_child-at_self, add_child-at_other, add_child-at_new,
}

ℕ-cases : (a b : ℕ) → (a ≡ b) ⊎ (a ≢ b)
ℕ-cases a b = ground arith

taken_other : (o : Option ℕ) (b : Bool) (h : ℕ) → o ≡ none → (b ≡ true → o ≡ some h) → b ≡ false
taken_other o true h e f = let g = f refl in cc
taken_other o false h e f = refl

module _ {W : Type 0} (s : Vfs W) (p : ℕ) (n : Text) (d : DirEntry)
    (in_list : p < length s.dentries) (fresh : get_name (dentry s p).children n ≡ none) where
  abbrev s' : Vfs W
  s' = add_child s p n d

  -- What is not the children is kept.
  kept {ℓ} :
      {B : Type ℓ} (f : DirEntry → B)
      → ((e : DirEntry) (c : NameMap ℕ) → f (record e { children = c }) ≡ f e)
      → (q : ℕ) → q < length s.dentries
      → f (dentry s' q) ≡ f (dentry s q)
  kept f blind q h = elim (ℕ-cases p q) [
    | inl e ↦
        subst (λ k. f (dentry s' k) ≡ f (dentry s k)) e
          (ap f (add_child-at_self s p n d in_list) ∙ blind (dentry s p) _)
    | inr ne ↦ ap f (add_child-at_other s p n d in_list q h ne)
  ]

  loaded_kept :
      (q h : ℕ) (m : Text)
      → q < length s.dentries
      → get_name (dentry s q).children m ≡ some h
      → get_name (dentry s' q).children m ≡ some h
  loaded_kept q h m lt l = elim (ℕ-cases p q) [
    | inl e ↦
        let l' : get_name (dentry s p).children m ≡ some h =
          subst (λ k. get_name (dentry s k).children m ≡ some h) (sym e) l in
        let differ : same n m ≡ false =
          taken_other (get_name (dentry s p).children n) (same n m) h fresh (λ eq.
            subst (λ k. get_name (dentry s p).children k ≡ some h) (sym (same→≡ n m eq)) l') in
        subst (λ k. get_name (dentry s' k).children m ≡ some h) e
          (ap (λ (e : DirEntry). get_name e.children m) (add_child-at_self s p n d in_list)
            ∙ get_name-insert_other (dentry s p).children n m (length s.dentries) differ
            ∙ l')
    | inr ne ↦
        ap (λ (e : DirEntry). get_name e.children m) (add_child-at_other s p n d in_list q lt ne)
        ∙ l
  ]

  IsChild-kept : {q h : ℕ} {m : Text} → IsChild s q m h → IsChild s' q m h
  IsChild-kept {q} {h} {m} c =
      let longer = length-add_child s p n d in_list in
      let below = c.below in
      let within = c.within in
      let q_in : q < length s.dentries = omega arith in
      record {
        below = c.below;
        within = omega arith;
        loaded = loaded_kept q h m q_in c.loaded;
        back = kept (λ e. e.parent) (λ e k. refl) h c.within ∙ c.back;
        named = kept (λ e. e.name) (λ e k. refl) h c.within ∙ c.named;
        alive = c.alive;
        in_dir = kept (λ e. e.type_) (λ e k. refl) q q_in ∙ c.in_dir;
        proper = c.proper;
      }

  pub Reaches-kept : {q : ℕ} {ms : List Text} → Reaches s q ms → Reaches s' q ms
  Reaches-kept at_root = at_root
  Reaches-kept (child t c) = child (Reaches-kept t) (IsChild-kept c)

  pub IsRooted-kept : IsRooted s → IsRooted s'
  IsRooted-kept r =
      let longer = length-add_child s p n d in_list in
      record {
        first = r.first;
        top = kept (λ e. e.parent) (λ e k. refl) 0 r.some_dentry ∙ r.top;
        root_named = kept (λ e. e.name) (λ e k. refl) 0 r.some_dentry ∙ r.root_named;
        root_dir = kept (λ e. e.type_) (λ e k. refl) 0 r.some_dentry ∙ r.root_dir;
        some_dentry = omega arith;
      }

  pub IsChild-new :
      s.dropped p ≡ false
      → (dentry s p).type_ ≡ dir
      → is_name n ≡ true
      → d.parent ≡ some p
      → d.name ≡ n
      → IsChild s' p n (length s.dentries)
  IsChild-new alive in_dir proper back named =
      let longer = length-add_child s p n d in_list in
      let new = add_child-at_new s p n d in_list in
      record {
        below = in_list;
        within = omega arith;
        loaded =
            ap (λ (e : DirEntry). get_name e.children n) (add_child-at_self s p n d in_list)
            ∙ get_name-insert_self (dentry s p).children n (length s.dentries);
        back = ap (λ (e : DirEntry). e.parent) new ∙ back;
        named = ap (λ (e : DirEntry). e.name) new ∙ named;
        alive = alive;
        in_dir = kept (λ e. e.type_) (λ e k. refl) p in_list ∙ in_dir;
        proper = proper;
      }

-- The state of the inodes is no part of the tree.
module _ {W : Type 0} (s : Vfs W) (w : W) where
  abbrev after : Vfs W
  after = record s { world = w }

  IsChild-world : {q h : ℕ} {m : Text} → IsChild s q m h → IsChild after q m h
  IsChild-world c = record {
    below = c.below;
    within = c.within;
    loaded = c.loaded;
    back = c.back;
    named = c.named;
    alive = c.alive;
    in_dir = c.in_dir;
    proper = c.proper;
  }

  pub Reaches-world : {q : ℕ} {ms : List Text} → Reaches s q ms → Reaches after q ms
  Reaches-world at_root = at_root
  Reaches-world (child t c) = child (Reaches-world t) (IsChild-world c)

  pub IsRooted-world : IsRooted s → IsRooted after
  IsRooted-world r = record {
    first = r.first;
    top = r.top;
    root_named = r.root_named;
    root_dir = r.root_dir;
    some_dentry = r.some_dentry;
  }

pub Reaches-within :
    {W : Type 0} (s : Vfs W) {q : ℕ} {ms : List Text}
    → IsRooted s
    → Reaches s q ms
    → q < length s.dentries
Reaches-within s r at_root = r.some_dentry
Reaches-within s r (child t c) = c.within
