-- ===== src/Prelude/Bits.antt =====
-- `&` with a mask and `|` of disjoint fields, as arithmetic at every width. The native operations
-- stand for a recursion on binary digits that takes a count; any count that is large enough gives
-- the same.
use Prim.Native.Nat.{
  ℕ, zero, suc, ◌+◌, ◌-◌, ◌*◌, ◌/◌, ◌%◌, ◌^◌, ◌≤◌, ◌<◌, min, max, bit_and, bit_or, digits, bitwise,
  bit_and-bitwise, bit_or-bitwise,
}
use mathlib.Core.Path.{◌≡◌, refl, ap, ap₂, ◌∙◌}
use mathlib.Core.Bool.{Bool, true, ◌&&◌}
use native.Mathlib.Nat.{pow-suc, one-le-pow}
use native.Mathlib.Omega.{arith}

module _ (z : ℕ → ℕ) (f : ℕ → ℕ → ℕ) where
  spare_digit : (n a b : ℕ) → a ≤ n → digits z f (suc n) a b ≡ digits z f n a b
  spare_digit zero zero b h = refl
  spare_digit zero (suc a) b h = absurd (omega arith)
  spare_digit (suc n) zero b h = refl
  spare_digit (suc n) (suc a) b h =
      ap (λ t. t * 2 + f (suc a % 2) (b % 2)) (spare_digit n (suc a / 2) (b / 2) (omega arith))

  spare_digits : (k n m a b : ℕ) → a ≤ n → m ≡ k + n → digits z f m a b ≡ digits z f n a b
  spare_digits zero n m a b h e =
      ap (λ t. digits z f t a b) (let same : m ≡ n = omega arith in same)
  spare_digits (suc k) n m a b h e =
      ap (λ t. digits z f t a b) (let more : m ≡ suc (k + n) = omega arith in more)
      ∙ spare_digit (k + n) a b (omega arith)
      ∙ spare_digits k n (k + n) a b h refl

  lowest_digit :
      (x y : ℕ)
      → bitwise z f (suc x) y ≡ bitwise z f (suc x / 2) (y / 2) * 2 + f (suc x % 2) (y % 2)
  lowest_digit x y =
      ap (λ t. t * 2 + f (suc x % 2) (y % 2))
        (spare_digits (x - suc x / 2) (suc x / 2) x (suc x / 2) (y / 2) (omega arith) (omega arith))

pub bit_and-half : (x y : ℕ) → bit_and x y ≡ bit_and (x / 2) (y / 2) * 2 + min (x % 2) (y % 2)
bit_and-half zero y = simp bit_and-bitwise (omega arith)
bit_and-half (suc x) y = simp bit_and-bitwise (lowest_digit (λ c. 0) min x y)

pub bit_or-half : (x y : ℕ) → bit_or x y ≡ bit_or (x / 2) (y / 2) * 2 + max (x % 2) (y % 2)
bit_or-half zero y = simp bit_or-bitwise (omega arith)
bit_or-half (suc x) y = simp bit_or-bitwise (lowest_digit (λ c. c) max x y)

zero_upto : (n a : ℕ) → a ≤ n → (bit_and a 0 ≡ 0) × (bit_or a 0 ≡ a)
zero_upto n zero h = (refl, refl)
zero_upto zero (suc a) h = absurd (omega arith)
zero_upto (suc n) (suc a) h =
    let (x, y) = zero_upto n (suc a / 2) (omega arith) in
    (omega (arith, bit_and-half (suc a) 0, x), omega (arith, bit_or-half (suc a) 0, y))

pub bit_and-zero : (a : ℕ) → bit_and a 0 ≡ 0
bit_and-zero a = (zero_upto a a (omega arith)).0

pub bit_or-zero : (a : ℕ) → bit_or a 0 ≡ a
bit_or-zero a = (zero_upto a a (omega arith)).1

-- `q` in front of `k` lower digits, with one digit more.
double : (q k : ℕ) → q * 2 ^ suc k ≡ q * 2 ^ k + q * 2 ^ k
double q k = omega (arith, ap (λ (t : ℕ). q * t) (pow-suc 2 k))

low_field : (k q r : ℕ) → r < 2 ^ k → bit_and (q * 2 ^ k + r) (2 ^ k - 1) ≡ r
low_field zero q r h = omega (arith, bit_and-zero (q * 2 ^ 0 + r))
low_field (suc k) q r h = omega (
  arith,
  pow-suc 2 k,
  one-le-pow k 2,
  double q k,
  bit_and-half (q * 2 ^ suc k + r) (2 ^ suc k - 1),
  ap₂ bit_and (let a : (q * 2 ^ suc k + r) / 2 ≡ q * 2 ^ k + r / 2 = omega (arith, double q k) in a)
      (let b : (2 ^ suc k - 1) / 2 ≡ 2 ^ k - 1 = omega (arith, pow-suc 2 k, one-le-pow k 2) in b),
  low_field k q (r / 2) (omega (arith, pow-suc 2 k)),
)

-- The mask of the `k` lowest bits is the remainder by `2 ^ k`.
pub bit_and-low : (k a : ℕ) → bit_and a (2 ^ k - 1) ≡ a % 2 ^ k
bit_and-low k a = ground (arith, one-le-pow k 2, low_field k (a / 2 ^ k) (a % 2 ^ k))

high_field : (k q r m : ℕ) → r < 2 ^ k → bit_and (q * 2 ^ k + r) (m * 2 ^ k) ≡ bit_and q m * 2 ^ k
high_field zero q r m h = omega (
  arith,
  ap₂ bit_and (let a : q * 2 ^ 0 + r ≡ q = omega arith in a)
      (let b : m * 2 ^ 0 ≡ m = omega arith in b),
)
high_field (suc k) q r m h = omega (
  arith,
  double (bit_and q m) k,
  double m k,
  bit_and-half (q * 2 ^ suc k + r) (m * 2 ^ suc k),
  ap₂ bit_and (let a : (q * 2 ^ suc k + r) / 2 ≡ q * 2 ^ k + r / 2 = omega (arith, double q k) in a)
      (let b : m * 2 ^ suc k / 2 ≡ m * 2 ^ k = omega (arith, double m k) in b),
  high_field k q (r / 2) m (omega (arith, pow-suc 2 k)),
)

-- A mask whose `k` lowest bits are clear.
pub bit_and-high : (k a m : ℕ) → bit_and a (m * 2 ^ k) ≡ bit_and (a / 2 ^ k) m * 2 ^ k
bit_and-high k a m = ground (arith, one-le-pow k 2, high_field k (a / 2 ^ k) (a % 2 ^ k) m)

-- Fields that do not overlap are added.
pub bit_or-fields : (k q r : ℕ) → r < 2 ^ k → bit_or (q * 2 ^ k) r ≡ q * 2 ^ k + r
bit_or-fields zero q r h = ground (arith, bit_or-zero q)
bit_or-fields (suc k) q r h = omega (
  arith,
  double q k,
  bit_or-half (q * 2 ^ suc k) r,
  ap (λ t. bit_or t (r / 2))
      (let a : q * 2 ^ suc k / 2 ≡ q * 2 ^ k = omega (arith, double q k) in a),
  bit_or-fields k q (r / 2) (omega (arith, pow-suc 2 k)),
)

pub zero-bit_or : (b : ℕ) → bit_or 0 b ≡ b
zero-bit_or b = bit_or-bitwise 0 b

-- The same with the higher field behind.
pub bit_or-above : (k q r : ℕ) → r < 2 ^ k → bit_or r (q * 2 ^ k) ≡ q * 2 ^ k + r
bit_or-above zero q r h = ground (arith, zero-bit_or (q * 2 ^ 0))
bit_or-above (suc k) q r h = omega (
  arith,
  double q k,
  bit_or-half r (q * 2 ^ suc k),
  ap (bit_or (r / 2)) (let a : q * 2 ^ suc k / 2 ≡ q * 2 ^ k = omega (arith, double q k) in a),
  bit_or-above k q (r / 2) (omega (arith, pow-suc 2 k)),
)

-- A test that holds at every number below a bound, found by evaluation.
unfoldable pub holds_below : (ℕ → Bool) → ℕ → Bool
holds_below test zero = true
holds_below test (suc last) = holds_below test last && test last

pub holds_below_lem :
    (test : ℕ → Bool) (bound x : ℕ) → holds_below test bound ≡ true → x < bound → test x ≡ true
unfolding holds_below
holds_below_lem test zero x e below = absurd (omega arith)
holds_below_lem test (suc last) x e below = ground (arith, holds_below_lem test last x)
