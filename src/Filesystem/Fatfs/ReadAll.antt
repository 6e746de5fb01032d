-- ===== src/Filesystem/Fatfs/ReadAll.antt =====
-- `FatFSFile::read` of src/filesystem/fatfs.rs reads on until the buffer is full or the file ends.
use ark_rust_kernel.Prelude.{
  ℕ, zero, suc, ◌-◌, ◌<◌, ◌≤◌, ◌≡◌, ◌⊎◌, refl, sym, ◌∙◌, ap, arith, List, [], ◌∷◌, ◌++◌, Option,
  none, some, Outcome, done, panic, inl, inr, length, take,
}
use ark_rust_kernel.Filesystem.Fatfs.{FatLibrary, read_loop, read}
use ark_rust_kernel.Filesystem.Dentry.Paths.{append_assoc, append_nil}

-- What a read of the library is documented to do: `rest` is what lies after the position of a
-- file. A read fails, or gives a part of it that fits, and nothing only for no room or at the end.
pub record IsReader {L : Type 0} (lib : FatLibrary L) (rest : L → ℕ → List ℕ) : Type 0 where
  pub fits :
      (l : L) (f room : ℕ) (bs : List ℕ) (l' : L)
      → lib.read_file l f room ≡ some (bs, l')
      → length bs ≤ room
  pub goes_on :
      (l : L) (f room : ℕ) (bs : List ℕ) (l' : L)
      → lib.read_file l f room ≡ some (bs, l')
      → rest l f ≡ bs ++ rest l' f
  pub ends :
      (l : L) (f room : ℕ) (l' : L)
      → lib.read_file l f room ≡ some ([], l')
      → (room ≡ 0) ⊎ (rest l f ≡ [])

-- The library reports an error for a read of the file.
abbrev pub Fails : {L : Type 0} → FatLibrary L → ℕ → Type 0
Fails {L} lib f = (l : L) × (room : ℕ) × (lib.read_file l f room ≡ none)

take-append :
    (xs ys : List ℕ) (n : ℕ) → length xs ≤ n → take n (xs ++ ys) ≡ xs ++ take (n - length xs) ys
take-append [] ys n h = let same : n ≡ n - 0 = omega arith in ap (λ (k : ℕ). take k ys) same
take-append (x ∷ xs) ys zero h = elim h [ ]
take-append (x ∷ xs) ys (suc n) h =
    let rest = take-append xs ys n (omega arith) in
    let same : suc n - suc (length xs) ≡ n - length xs = omega arith in cc

take_none : (n : ℕ) (xs : List ℕ) → (n ≡ 0) ⊎ (xs ≡ []) → take n xs ≡ []
take_none zero xs h = refl
take_none (suc n) [] h = refl
take_none (suc n) (x ∷ xs) h = ground arith

module _ {L : Type 0} (lib : FatLibrary L) (rest : L → ℕ → List ℕ)
    (reader : IsReader lib rest) where
  open reader use {fits, goes_on, ends}

  loop_fail :
      (fuel : ℕ) (l : L) (f room : ℕ) (got : List ℕ)
      → lib.read_file l f room ≡ none
      → read_loop lib (suc fuel) l f room got ≡ panic
  unfolding read_loop
  loop_fail fuel l f room got e = rw (read_loop, e) refl

  loop_end :
      (fuel : ℕ) (l : L) (f room : ℕ) (got : List ℕ) (l' : L)
      → lib.read_file l f room ≡ some ([], l')
      → read_loop lib (suc fuel) l f room got ≡ done (got, l')
  unfolding read_loop
  loop_end fuel l f room got l' e = rw (read_loop, e) refl

  loop_more :
      (fuel : ℕ) (l : L) (f room : ℕ) (got : List ℕ) (x : ℕ) (xs : List ℕ) (l' : L)
      → lib.read_file l f room ≡ some (x ∷ xs, l')
      → read_loop lib (suc fuel) l f room got
        ≡ read_loop lib fuel l' f (room - suc (length xs)) (got ++ (x ∷ xs))
  unfolding read_loop
  loop_more fuel l f room got x xs l' e = rw (read_loop, e) refl

  -- A read that gives these bytes, or panics for an error of the library
  abbrev pub Gives : Outcome (List ℕ × L) → ℕ → List ℕ → Type 0
  Gives m f bs = ((l' : L) × (m ≡ done (bs, l'))) ⊎ ((m ≡ panic) × Fails lib f)

  -- What a loop on this fuel does, for every position and all that was read before
  abbrev ReadsAll : ℕ → Type 0
  ReadsAll fuel =
      (l : L) (f room : ℕ) (got : List ℕ)
      → room < fuel
      → Gives (read_loop lib fuel l f room got) f (got ++ take room (rest l f))

  further-Gives :
      (m m' : Outcome (List ℕ × L)) (f : ℕ) (bs bs' : List ℕ)
      → m ≡ m'
      → bs' ≡ bs
      → Gives m' f bs'
      → Gives m f bs
  further-Gives m m' f bs bs' e same (inl (l', r)) =
      inl (l', e ∙ r ∙ ap (λ (b : List ℕ). done (b, l')) same)
  further-Gives m m' f bs bs' e same (inr (r, fails)) = inr (e ∙ r, fails)

  read_round :
      (fuel : ℕ) (l : L) (f room : ℕ) (got : List ℕ) (o : Option (List ℕ × L))
      → ReadsAll fuel
      → room < suc fuel
      → lib.read_file l f room ≡ o
      → Gives (read_loop lib (suc fuel) l f room got) f (got ++ take room (rest l f))
  read_round fuel l f room got none ih h e = inr (loop_fail fuel l f room got e, (l, room, e))
  read_round fuel l f room got (some ([], l')) ih h e =
      let nothing : take room (rest l f) ≡ [] = take_none room (rest l f) (ends l f room l' e) in
      inl (l', rw (nothing, append_nil got) (loop_end fuel l f room got l' e))
  read_round fuel l f room got (some (x ∷ xs, l')) ih h e =
      let fit = fits l f room (x ∷ xs) l' e in
      let on = goes_on l f room (x ∷ xs) l' e in
      further-Gives (read_loop lib (suc fuel) l f room got)
        (read_loop lib fuel l' f (room - suc (length xs)) (got ++ (x ∷ xs))) f
        (got ++ take room (rest l f))
        ((got ++ (x ∷ xs)) ++ take (room - suc (length xs)) (rest l' f))
        (loop_more fuel l f room got x xs l' e)
        (append_assoc got (x ∷ xs) (take (room - suc (length xs)) (rest l' f))
          ∙ ap (λ (bs : List ℕ). got ++ bs)
              (sym (take-append (x ∷ xs) (rest l' f) room fit) ∙ ap (take room) (sym on)))
        (ih l' f (room - suc (length xs)) (got ++ (x ∷ xs)) (omega arith))

  read_loop_lem : (fuel : ℕ) → ReadsAll fuel
  read_loop_lem zero l f room got h = elim h [ ]
  read_loop_lem (suc fuel) l f room got h =
      read_round fuel l f room got (lib.read_file l f room) (read_loop_lem fuel) h refl

  -- Over a library whose reads do what is documented where they do not fail, a read ends and gives
  -- what lies after the position, as much of it as the buffer has room for; only where the library
  -- reports an error for the file, it may panic.
  pub read_all : (l : L) (f room : ℕ) → Gives (read lib l f room) f (take room (rest l f))
  unfolding read
  read_all l f room = read_loop_lem (suc room) l f room [] (omega arith)
