-- ===== src/Prelude/Maps.antt =====
-- A `BTreeMap` with numbers for keys, as a list in the order of the keys.
use Prim.Native.Nat.{ℕ, suc, ◌≤◌, ◌<◌}
use mathlib.Core.Path.{◌≡◌, refl}
use mathlib.Core.Bool.{Bool, true, false, ◌&&◌}
use mathlib.Core.Option.{Option, none, some}
use mathlib.Core.List.{List, [], ◌∷◌}
use native.Mathlib.Omega.{arith}
use ark_rust_kernel.Prelude.Tests.{ltb, leb, leb→le, ◌==◌, if◌then◌else◌}

abbrev pub Map {ℓ} : Type ℓ → Type ℓ
Map A = List (ℕ × A)

abbrev pub insert {ℓ} : {A : Type ℓ} → Map A → ℕ → A → Map A
insert [] k p = (k, p) ∷ []
insert ((j, q) ∷ rest) k p =
    if ltb k j
    then (k, p) ∷ (j, q) ∷ rest
    else if k == j
    then (k, p) ∷ rest
    else (j, q) ∷ insert rest k p

abbrev pub get {ℓ} : {A : Type ℓ} → Map A → ℕ → Option A
get [] k = none
get ((j, q) ∷ rest) k = if j == k then some q else get rest k

abbrev pub remove {ℓ} : {A : Type ℓ} → Map A → ℕ → Map A
remove [] k = []
remove ((j, q) ∷ rest) k = if j == k then rest else (j, q) ∷ remove rest k

abbrev pub contains_key {ℓ} : {A : Type ℓ} → Map A → ℕ → Bool
contains_key m k = elim (get m k) [ some _ ↦ true | none ↦ false ]

-- The keys are at least `lo` and ascend.
abbrev pub sorted {ℓ} : {A : Type ℓ} → ℕ → Map A → Bool
sorted lo [] = true
sorted lo ((j, q) ∷ rest) = leb lo j && sorted (suc j) rest

pub get-insert {ℓ} :
    {A : Type ℓ} (m : Map A) (k q : ℕ) (a : A)
    → get (insert m k a) q ≡ (if q == k then some a else get m q)
get-insert [] k q a = ground arith
get-insert ((j, b) ∷ rest) k q a = ground (arith, get-insert rest k q a)

above : (j q : ℕ) → q < j → (j == q) ≡ false
above j q h = ground arith

both : (a b : Bool) → (a && b) ≡ true → (a ≡ true) × (b ≡ true)
both a b h = ground arith

pub get_below {ℓ} :
    {A : Type ℓ} (lo : ℕ) (m : Map A) (q : ℕ) → sorted lo m ≡ true → q < lo → get m q ≡ none
get_below lo [] q s h = refl
get_below lo ((j, b) ∷ rest) q s h =
    let (first, others) = both (leb lo j) (sorted (suc j) rest) s in
    let le = leb→le lo j first in
    rw (above j q (omega arith)) (get_below (suc j) rest q others (omega arith))

pub get-remove {ℓ} :
    {A : Type ℓ} (lo : ℕ) (m : Map A) (k q : ℕ)
    → sorted lo m ≡ true
    → get (remove m k) q ≡ (if q == k then none else get m q)
get-remove lo [] k q s = ground arith
get-remove lo ((j, b) ∷ rest) k q s =
    ground (arith, get-remove (suc j) rest k q, get_below (suc j) rest q)

pub sorted-insert {ℓ} :
    {A : Type ℓ} (lo : ℕ) (m : Map A) (k : ℕ) (a : A)
    → lo ≤ k
    → sorted lo m ≡ true
    → sorted lo (insert m k a) ≡ true
sorted-insert lo [] k a h s = ground arith
sorted-insert lo ((j, b) ∷ rest) k a h s = ground (arith, sorted-insert (suc j) rest k a)

pub sorted_weaken {ℓ} :
    {A : Type ℓ} (lo hi : ℕ) (m : Map A) → lo ≤ hi → sorted hi m ≡ true → sorted lo m ≡ true
sorted_weaken lo hi [] h s = refl
sorted_weaken lo hi ((j, b) ∷ rest) h s = ground arith

pub sorted-remove {ℓ} :
    {A : Type ℓ} (lo : ℕ) (m : Map A) (k : ℕ) → sorted lo m ≡ true → sorted lo (remove m k) ≡ true
sorted-remove lo [] k s = refl
sorted-remove lo ((j, b) ∷ rest) k s =
    ground (arith, sorted-remove (suc j) rest k, sorted_weaken lo (suc j) rest)
