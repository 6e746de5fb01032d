-- ===== src/Syscall/Dirents/Records.antt =====
-- How the records of `getdents64` of src/syscall/file.rs follow the children of a directory.
use mathlib.Core.Path.{subst}
use ark_rust_kernel.Prelude.{
  ℕ, zero, suc, ◌+◌, ◌-◌, ◌≤◌, ◌≡◌, sym, ◌∙◌, ap, arith, Bool, true, ◌&&◌, List, [], ◌∷◌, ◌++◌,
  Option, some, done, assert, bit_and, not_usize, ◌==◌, ◌%◌, ◌^◌, >>=-eq-done, get_elem?, drop,
  take, map,
}
use ark_rust_kernel.Prelude.Text.{Text}
use ark_rust_kernel.Filesystem.Flags.{InodeStat, all_modes, mask_file_type}
use ark_rust_kernel.Filesystem.Inode.{Inodes, Vfs, dentry}
use ark_rust_kernel.Memory.Frames.{FrameAllocator}
use ark_rust_kernel.Memory.Entry.{VendorId}
use ark_rust_kernel.Memory.Paging.{Grown}
use ark_rust_kernel.Syscall.Dirents.{After, entry_type, encode, from_dentry, dents_loop}
use ark_rust_kernel.Syscall.Dirents.Decode.{is_short, parse, parse-encode}

-- The handles of the children of a directory, in order
abbrev pub children_of : {W : Type 0} → Vfs W → ℕ → List ℕ
children_of v d = map (λ (c : Text × ℕ). c.1) (dentry v d).children

abbrev pub names_of : {W : Type 0} → Vfs W → List ℕ → List Text
names_of v [] = []
names_of v (h ∷ hs) = (dentry v h).name ∷ names_of v hs

abbrev pub all_short : {W : Type 0} → Vfs W → List ℕ → Bool
all_short v [] = true
all_short v (h ∷ hs) = is_short (dentry v h).name && all_short v hs

drop_at : (cs : List ℕ) (i c : ℕ) → get_elem? cs i ≡ some c → drop i cs ≡ c ∷ drop (i + 1) cs
drop_at [] i c e = cc
drop_at (x ∷ cs) zero c e = cc
drop_at (x ∷ cs) (suc i) c e =
    let later : suc i + 1 ≡ suc (i + 1) = omega arith in
    drop_at cs i c e ∙ ap (λ (k : ℕ). c ∷ drop k (x ∷ cs)) (sym later)

first_short : (a b : Bool) → (a && b) ≡ true → (a ≡ true) × (b ≡ true)
first_short a b h = ground arith

self_minus : (i : ℕ) → i - i ≡ 0
self_minus i = omega arith

pub short_at :
    {W : Type 0} (v : Vfs W) (cs : List ℕ) (i c : ℕ)
    → all_short v cs ≡ true
    → get_elem? cs i ≡ some c
    → is_short (dentry v c).name ≡ true
short_at v [] i c s e = cc
short_at v (x ∷ cs) zero c s e =
    let same : x ≡ c = cc in
    subst (λ k. is_short (dentry v k).name ≡ true) same
      (first_short (is_short (dentry v x).name) (all_short v cs) s).0
short_at v (x ∷ cs) (suc i) c s e =
    short_at v cs i c (first_short (is_short (dentry v x).name) (all_short v cs) s).1 e

pub from_dentry-encode :
    (stat : InodeStat) (name : Text) (i : ℕ) (b : List ℕ)
    → from_dentry stat name i ≡ done b
    → (d_type : ℕ) × (encode stat.ino i d_type name ≡ b)
unfolding from_dentry
from_dentry-encode stat name i b e =
    let (u, _, f) =
      >>=-eq-done (assert (bit_and (stat.mode % 2 ^ 32) (not_usize all_modes) == 0)) _ e in
    (entry_type (mask_file_type (stat.mode % 2 ^ 32)), cc)

module _ (fa : FrameAllocator) (vendor : VendorId) (translate : ℕ → Option ℕ) {W : Type 0}
    (ops : Inodes W) (release : (ℕ → Bool) → ℕ → ℕ → Bool) (v : Vfs W) (d : ℕ) where
  -- What the bytes from the child `i` on decode to
  abbrev pub IsListing : ℕ → ℕ → List ℕ → ℕ → Type 0
  IsListing fuel i bytes next =
      (i ≤ next) × (parse fuel bytes ≡ names_of v (take (next - i) (drop i (children_of v d))))

  abbrev pub LoopLists : ℕ → Type 0
  LoopLists fuel =
      (k : Grown fa.State) (i cur room : ℕ) (bytes : List ℕ) (next : ℕ)
      (s' : After fa vendor translate ops release)
      → dents_loop fa vendor translate ops release fuel d (v, k) i cur room
        ≡ done (some (bytes, next), s')
      → IsListing fuel i bytes next

  pub IsListing-end : (fuel i : ℕ) → IsListing fuel i [] i
  unfolding parse
  IsListing-end zero i = (
    omega arith,
    ap (λ (k : ℕ). names_of v (take k (drop i (children_of v d)))) (sym (self_minus i)),
  )
  IsListing-end (suc fuel) i = (
    omega arith,
    ap (λ (k : ℕ). names_of v (take k (drop i (children_of v d)))) (sym (self_minus i)),
  )

  pub IsListing-record :
      (fuel i c ino d_type next : ℕ) (more : List ℕ)
      → get_elem? (children_of v d) i ≡ some c
      → is_short (dentry v c).name ≡ true
      → IsListing fuel (i + 1) more next
      → IsListing (suc fuel) i (encode ino i d_type (dentry v c).name ++ more) next
  IsListing-record fuel i c ino d_type next more at short (below, rest) =
      let one_more : next - i ≡ suc (next - (i + 1)) = omega arith in
      let from_here : take (next - i) (drop i (children_of v d))
          ≡ c ∷ take (next - (i + 1)) (drop (i + 1) (children_of v d)) =
        ap (λ (k : ℕ). take k (drop i (children_of v d))) one_more
        ∙ ap (take (suc (next - (i + 1)))) (drop_at (children_of v d) i c at) in
      (
        omega arith,
        parse-encode fuel ino i d_type (dentry v c).name more short
            ∙ ap (λ (ts : List Text). (dentry v c).name ∷ ts) rest
            ∙ ap (names_of v) (sym from_here),
      )
