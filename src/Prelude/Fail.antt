-- ===== src/Prelude/Fail.antt =====
-- Errors as values. `Result` is Rust's; `Outcome` adds the panic, which stops the kernel: a failed
-- `assert!`, an `unwrap` or `expect` of nothing, an index out of range.
use mathlib.Core.Path.{◌≡◌, refl}
use mathlib.Core.Logic.{◌⊎◌, inl, inr}
use mathlib.Core.Option.{Option, none, some}
use mathlib.Core.Bool.{Bool, true, false}

pub data Result {ℓ κ} (E : Type ℓ) (A : Type κ) : Type (ℓ ⊔ κ) where
  ok : A → Result E A
  err : E → Result E A

pub data Outcome {ℓ} (A : Type ℓ) : Type ℓ where
  done : A → Outcome A
  panic : Outcome A

infixl 5 ◌>>=◌ ◌>>◌
abbrev pub ◌>>=◌ {ℓ κ} : {A : Type ℓ} {B : Type κ} → Outcome A → (A → Outcome B) → Outcome B
done a >>= f = f a
panic >>= f = panic

abbrev pub ◌>>◌ {ℓ} : {B : Type ℓ} → Outcome (Unit {0}) → Outcome B → Outcome B
m >> k = m >>= λ _. k

-- `assert!(b)`
abbrev pub assert : Bool → Outcome (Unit {0})
assert true = done tt
assert false = panic

-- `unwrap` and `expect` on an option
abbrev pub unwrap {ℓ} : {A : Type ℓ} → Option A → Outcome A
unwrap none = panic
unwrap (some a) = done a

-- Inversion of a bind that does not panic, for proofs where the parts stay shut.
pub >>=-eq-done {ℓ κ} :
    {A : Type ℓ} {B : Type κ} (m : Outcome A) (f : A → Outcome B) {b : B}
    → (m >>= f) ≡ done b
    → (a : A) × (m ≡ done a) × (f a ≡ done b)
>>=-eq-done (done a) f h = (a, refl, h)
>>=-eq-done panic f h = cc

pub Outcome-cases {ℓ} : {A : Type ℓ} (m : Outcome A) → (m ≡ panic) ⊎ ((a : A) × (m ≡ done a))
Outcome-cases panic = inl refl
Outcome-cases (done a) = inr (a, refl)

-- `unwrap` on a result
abbrev pub unwrap_ok {ℓ κ} : {E : Type ℓ} {A : Type κ} → Result E A → Outcome A
unwrap_ok (ok a) = done a
unwrap_ok (err e) = panic
