-- ===== src/Process/Life/Wait/Find.antt =====
-- How `wait_for` of src/process/process.rs finds a zombie among the children that are alive.
use mathlib.Core.Path.{subst}
use ark_rust_kernel.Prelude.{
  ℕ, ◌≡◌, ◌≢◌, refl, sym, ◌∙◌, ap, arith, List, [], ◌∷◌, none, some, Bool, true, false, ◌&&◌, ltb,
  ◌==◌, if◌then◌else◌, ℤ, contains, Option-cases, Bool-cases, inl, inr,
}
use ark_rust_kernel.Memory.Frames.{FrameAllocator}
use ark_rust_kernel.Process.Life.{Family, strong_count}
use ark_rust_kernel.Process.Life.Wait.{
  is_zombie, waits_for, retain_live, find_zombie, reap, by_zombie, by_children, keep_live,
  wait_turn,
}

true_not_false : true ≢ false
true_not_false e = cc

if_true {ℓ} : {A : Type ℓ} (b : Bool) (x y : A) → b ≡ true → (if b then x else y) ≡ x
if_true true x y e = refl
if_true false x y e = absurd (true_not_false (sym e))

if_false {ℓ} : {A : Type ℓ} (b : Bool) (x y : A) → b ≡ false → (if b then x else y) ≡ y
if_false true x y e = absurd (true_not_false e)
if_false false x y e = refl

-- A zombie that the call waits for
abbrev pub matches : {S : Type 0} → Family S → ℤ → ℕ → Bool
matches s pid c = is_zombie (s.procs c).status && waits_for pid (s.procs c).pid

module _ {S : Type 0} (s : Family S) (caller : ℕ) where
  kept_matches : (pid : ℤ) (c : ℕ) → matches (keep_live s caller) pid c ≡ matches s pid c
  kept_matches pid c = ground arith

  pub find_zombie-kept :
      (pid : ℤ) (cs : List ℕ) → find_zombie (keep_live s caller) pid cs ≡ find_zombie s pid cs
  unfolding find_zombie
  find_zombie-kept pid [] = refl
  find_zombie-kept pid (c ∷ rest) = ground (arith, kept_matches pid c, find_zombie-kept pid rest)

  not_found_in_none : (pid : ℤ) (c : ℕ) → find_zombie s pid [] ≢ some c
  unfolding find_zombie
  not_found_in_none pid c e = cc

  find_zombie_sound :
      (pid : ℤ) (cs : List ℕ) (d : ℕ) → find_zombie s pid cs ≡ some d → matches s pid d ≡ true
  unfolding find_zombie
  find_zombie_sound pid [] d e = cc
  find_zombie_sound pid (c ∷ cs) d e = elim (Bool-cases (matches s pid c)) [
    | inl m ↦
        let found : some c ≡ some d =
          sym (if_true (matches s pid c) (some c) (find_zombie s pid cs) m) ∙ e in
        let same : c ≡ d = cc in subst (λ k. matches s pid k ≡ true) same m
    | inr other ↦
        find_zombie_sound pid cs d
          (sym (if_false (matches s pid c) (some c) (find_zombie s pid cs) other) ∙ e)
  ]

  find_zombie-member :
      (pid : ℤ) (cs : List ℕ) (d : ℕ) → find_zombie s pid cs ≡ some d → contains cs d ≡ true
  unfolding find_zombie
  find_zombie-member pid [] d e = cc
  find_zombie-member pid (c ∷ cs) d e = elim (Bool-cases (matches s pid c)) [
    | inl m ↦
        let found : some c ≡ some d =
          sym (if_true (matches s pid c) (some c) (find_zombie s pid cs) m) ∙ e in
        let same : c ≡ d = cc in ground arith
    | inr other ↦
        let later =
          find_zombie-member pid cs d
            (sym (if_false (matches s pid c) (some c) (find_zombie s pid cs) other) ∙ e) in
        ground arith
  ]

  find_zombie_skip :
      (pid : ℤ) (d : ℕ) (cs : List ℕ)
      → find_zombie s pid (d ∷ cs) ≡ none
      → find_zombie s pid cs ≡ none
  unfolding find_zombie
  find_zombie_skip pid d cs e = ground arith

  find_zombie_here :
      (pid : ℤ) (d : ℕ) (cs : List ℕ) → matches s pid d ≡ true → find_zombie s pid (d ∷ cs) ≡ some d
  unfolding find_zombie
  find_zombie_here pid d cs m = ground arith

  retain_live_cons :
      (d : ℕ) (cs : List ℕ)
      → retain_live s (d ∷ cs)
        ≡ (if ltb 0 (strong_count s d) then d ∷ retain_live s cs else retain_live s cs)
  unfolding retain_live
  retain_live_cons d cs = refl

  retained-member :
      (cs : List ℕ) (d : ℕ) → contains (retain_live s cs) d ≡ true → contains cs d ≡ true
  unfolding retain_live
  retained-member [] d e = cc
  retained-member (c ∷ cs) d e = elim (Bool-cases (c == d)) [
    | inl here ↦ ground arith
    | inr away ↦
        let later : contains (retain_live s cs) d ≡ true = ground arith in
        let inside = retained-member cs d later in ground arith
  ]

  -- A zombie that is waited for and still counted is found, it or another.
  find_zombie_finds :
      (pid : ℤ) (c : ℕ) (cs : List ℕ)
      → contains cs c ≡ true
      → matches s pid c ≡ true
      → ltb 0 (strong_count s c) ≡ true
      → find_zombie s pid (retain_live s cs) ≢ none
  find_zombie_finds pid c [] inside m live e = cc
  find_zombie_finds pid c (d ∷ ds) inside m live e = elim (Bool-cases (d == c)) [
    | inl here ↦
        let same : c ≡ d = ground arith in
        let live' : ltb 0 (strong_count s d) ≡ true =
          subst (λ k. ltb 0 (strong_count s k) ≡ true) same live in
        let m' : matches s pid d ≡ true = subst (λ k. matches s pid k ≡ true) same m in
        let retained : retain_live s (d ∷ ds) ≡ d ∷ retain_live s ds =
          retain_live_cons d ds
          ∙ if_true (ltb 0 (strong_count s d)) (d ∷ retain_live s ds) (retain_live s ds) live' in
        let found = find_zombie_here pid d (retain_live s ds) m' in
        let clash : some d ≡ none = sym found ∙ ap (find_zombie s pid) (sym retained) ∙ e in cc
    | inr away ↦
        let inside' : contains ds c ≡ true = ground arith in
        let ih = find_zombie_finds pid c ds inside' m live in
        (elim (Bool-cases (ltb 0 (strong_count s d))) [
          | inl alive ↦
              let retained =
                retain_live_cons d ds
                ∙ if_true (ltb 0 (strong_count s d)) (d ∷ retain_live s ds) (retain_live s ds)
                    alive in
              ih (
                find_zombie_skip pid d (retain_live s ds)
                  (ap (find_zombie s pid) (sym retained) ∙ e))
          | inr dead ↦
              let retained =
                retain_live_cons d ds
                ∙ if_false (ltb 0 (strong_count s d)) (d ∷ retain_live s ds) (retain_live s ds)
                    dead in
              ih (ap (find_zombie s pid) (sym retained) ∙ e)
        ])
  ]

  -- The first match, where there is one
  pub first_match :
      (pid : ℤ) (c : ℕ)
      → contains (s.procs caller).children c ≡ true
      → matches s pid c ≡ true
      → ltb 0 (strong_count s c) ≡ true
      → (d : ℕ) × (find_zombie s pid (retain_live s (s.procs caller).children) ≡ some d)
        × (matches s pid d ≡ true)
        × (contains (s.procs caller).children d ≡ true)
  first_match pid c inside m live =
      let cs = retain_live s (s.procs caller).children in
      elim (Option-cases (find_zombie s pid cs)) [
        | inl nothing ↦
            absurd (find_zombie_finds pid c (s.procs caller).children inside m live nothing)
        | inr (d, found) ↦ (
          d,
          found,
          find_zombie_sound pid cs d found,
          retained-member (s.procs caller).children d (find_zombie-member pid cs d found),
        )
      ]

  pub pid_in_kept : (d : ℕ) → ((keep_live s caller).procs d).pid ≡ (s.procs d).pid
  pid_in_kept d = ground arith

  pub code_in_kept : (d : ℕ) → ((keep_live s caller).procs d).exit_code ≡ (s.procs d).exit_code
  code_in_kept d = ground arith

module _ (fa : FrameAllocator) (s : Family fa.State) (caller : ℕ) where
  pub turn_found :
      (pid : ℤ) (option c : ℕ) (cs : List ℕ)
      → retain_live s (s.procs caller).children ≡ cs
      → find_zombie s pid cs ≡ some c
      → wait_turn fa s caller pid option ≡ reap fa (keep_live s caller) c
  unfolding wait_turn
  turn_found pid option c [] r f = absurd (not_found_in_none s caller pid c f)
  turn_found pid option c (d ∷ ds) r f =
      ap (by_children fa (keep_live s caller) caller pid option) r
      ∙ ap (by_zombie fa (keep_live s caller) caller pid option)
          (find_zombie-kept s caller pid (d ∷ ds) ∙ f)
