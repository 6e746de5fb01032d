-- ===== src/Prelude/Text.antt =====
-- Texts as their bytes, which the kernel walks, with the maps that texts are the keys of (a
-- `BTreeMap<String, _>` as a list in the order of its keys).
use Prim.Native.Char.{code}
use Prim.Native.Nat.{ℕ}
use Prim.Native.String.{String}
use mathlib.Core.Path.{◌≡◌, refl}
use mathlib.Core.Bool.{Bool, true, false, ◌&&◌, ◌||◌, not}
use mathlib.Core.Option.{Option, none, some}
use mathlib.Core.List.{List, [], ◌∷◌, ◌++◌}
use native.Mathlib.Omega.{arith}
use ark_rust_kernel.Prelude.Tests.{ltb, ◌==◌, if◌then◌else◌}

abbrev pub Text : Type 0
Text = List ℕ

abbrev pub bytes : String → Text
bytes String.[] = []
bytes (String.◌∷◌ c s) = code c ∷ bytes s

-- `==` on texts
abbrev pub same : Text → Text → Bool
same [] [] = true
same [] (d ∷ ds) = false
same (c ∷ cs) [] = false
same (c ∷ cs) (d ∷ ds) = (c == d) && same cs ds

pub same_refl : (s : Text) → same s s ≡ true
same_refl [] = refl
same_refl (c ∷ cs) = ground (arith, same_refl cs)

pub same→≡ : (s t : Text) → same s t ≡ true → s ≡ t
same→≡ [] [] h = refl
same→≡ [] (d ∷ ds) h = cc
same→≡ (c ∷ cs) [] h = cc
same→≡ (c ∷ cs) (d ∷ ds) h = ground (arith, same→≡ cs ds)

-- `<` on texts, by their bytes
abbrev pub before : Text → Text → Bool
before [] [] = false
before [] (d ∷ ds) = true
before (c ∷ cs) [] = false
before (c ∷ cs) (d ∷ ds) = ltb c d || (c == d) && before cs ds

-- Nothing comes before itself.
before-same : (s t : Text) → same s t ≡ true → before s t ≡ false
before-same [] [] h = refl
before-same [] (d ∷ ds) h = cc
before-same (c ∷ cs) [] h = cc
before-same (c ∷ cs) (d ∷ ds) h = ground (arith, before-same cs ds)

abbrev pub slash : ℕ
slash = b'/'

abbrev pub starts_with_slash : Text → Bool
starts_with_slash [] = false
starts_with_slash (c ∷ cs) = c == slash

abbrev push_front : ℕ → List Text → List Text
push_front c [] = (c ∷ []) ∷ []
push_front c (t ∷ ts) = (c ∷ t) ∷ ts

-- `split("/")`: one piece more than there are slashes
abbrev pub split : Text → List Text
split [] = [] ∷ []
split (c ∷ cs) = if c == slash then [] ∷ split cs else push_front c (split cs)

abbrev pub no_slash : Text → Bool
no_slash [] = true
no_slash (c ∷ cs) = not (c == slash) && no_slash cs

pub split-no_slash : (n : Text) → no_slash n ≡ true → split n ≡ n ∷ []
split-no_slash [] h = refl
split-no_slash (c ∷ cs) h = ground (arith, split-no_slash cs)

pub split-append :
    (n rest : Text) → no_slash n ≡ true → split (n ++ (slash ∷ rest)) ≡ n ∷ split rest
split-append [] rest h = refl
split-append (c ∷ cs) rest h = ground (arith, split-append cs rest)

abbrev pub NameMap {ℓ} : Type ℓ → Type ℓ
NameMap A = List (Text × A)

module _ {ℓ} {A : Type ℓ} where
  unfoldable pub get_name : NameMap A → Text → Option A
  get_name [] k = none
  get_name ((j, a) ∷ m) k = if same j k then some a else get_name m k

  unfoldable pub insert_name : NameMap A → Text → A → NameMap A
  insert_name [] k a = (k, a) ∷ []
  insert_name ((j, b) ∷ m) k a =
      let rest = insert_name m k a in
      if same j k then (j, a) ∷ m else if before k j then (k, a) ∷ (j, b) ∷ m else (j, b) ∷ rest

  pub get_name-insert_self :
      (m : NameMap A) (k : Text) (a : A) → get_name (insert_name m k a) k ≡ some a
  unfolding get_name insert_name
  get_name-insert_self [] k a = ground (arith, same_refl k)
  get_name-insert_self ((j, b) ∷ m) k a = ground (arith, same_refl k, get_name-insert_self m k a)

  -- A key that is another one.
  pub get_name-insert_other :
      (m : NameMap A) (k q : Text) (a : A)
      → same k q ≡ false
      → get_name (insert_name m k a) q ≡ get_name m q
  unfolding get_name insert_name
  get_name-insert_other [] k q a h = ground arith
  get_name-insert_other ((j, b) ∷ m) k q a h =
      ground (arith, same→≡ j k, get_name-insert_other m k q a h)
