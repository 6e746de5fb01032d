-- ===== src/Memory/Address/Rounding.antt =====
-- `round_up_to` and `round_down_to` of src/memory/address.rs, at every power of two.
use ark_rust_kernel.Prelude.{
  ℕ, zero, suc, ◌+◌, ◌-◌, ◌*◌, ◌/◌, ◌%◌, ◌^◌, ◌≤◌, ◌<◌, ◌≡◌, ◌∙◌, ap, refl, arith, bit_and,
  sub_usize, not_usize,
}
use ark_rust_kernel.Prelude.Bits.{bit_and-low, bit_and-high}
use native.Mathlib.Nat.{pow-suc, one-le-pow, mod-eq_of_lt}
use ark_rust_kernel.Memory.Address.{page_size, round_up_to, round_down_to, round_up, round_down}

pow-add : (j k n : ℕ) → n ≡ j + k → 2 ^ n ≡ 2 ^ j * 2 ^ k
pow-add zero k n e = ground arith
pow-add (suc j) k n e =
    let step : 2 ^ n ≡ 2 ^ (j + k) * 2 =
      ap (λ t. 2 ^ t) (let f : n ≡ suc (j + k) = omega arith in f) ∙ pow-suc 2 (j + k) in
    grind (arith, step, pow-add j k (j + k) refl, pow-suc 2 j)

div_lt_pow : (a p q : ℕ) → a < p * q → a / q < p
div_lt_pow a p q h = grind arith

sub_one-mul : (p q : ℕ) → 1 ≤ p → (p - 1) * q + q ≡ p * q
sub_one-mul zero q h = absurd (omega arith)
sub_one-mul (suc p) q h =
    omega (arith, ap (λ (t : ℕ). t * q) (let e : suc p - 1 ≡ p = omega arith in e))

-- `!(to - 1)` clears the `k` lowest bits.
mask_lem :
    (k j a : ℕ) → 64 ≡ j + k → a < 2 ^ 64 → bit_and a (not_usize (2 ^ k - 1)) ≡ a / 2 ^ k * 2 ^ k
mask_lem k j a e h =
    ap (bit_and a) mask
    ∙ bit_and-high k a (2 ^ j - 1)
    ∙ ap (λ t. t * 2 ^ k)
        (bit_and-low j (a / 2 ^ k)
          ∙ mod-eq_of_lt (div_lt_pow a (2 ^ j) (2 ^ k) (omega (arith, pow-add j k 64 e))))
  where
    mask : not_usize (2 ^ k - 1) ≡ (2 ^ j - 1) * 2 ^ k
    mask = omega (
      arith,
      pow-add j k 64 e,
      one-le-pow k 2,
      sub_one-mul (2 ^ j) (2 ^ k) (one-le-pow j 2 (omega arith)),
    )

-- `to - 1` does not wrap.
sub_one : (k j : ℕ) → 64 ≡ j + k → sub_usize (2 ^ k) 1 ≡ 2 ^ k - 1
sub_one k j e = omega (
  arith,
  pow-add j k 64 e,
  one-le-pow k 2,
  sub_one-mul (2 ^ j) (2 ^ k) (one-le-pow j 2 (omega arith)),
)

-- Rounding down to a power of two drops the remainder.
pub round_down_to_lem :
    (k j a : ℕ) → 64 ≡ j + k → a < 2 ^ 64 → round_down_to a (2 ^ k) ≡ a / 2 ^ k * 2 ^ k
unfolding round_down_to
round_down_to_lem k j a e h = rw (sub_one k j e) (mask_lem k j a e h)

-- Rounding up to a power of two gives the least multiple that is not below the address.
pub round_up_to_lem :
    (k j a : ℕ)
    → 64 ≡ j + k
    → a + (2 ^ k - 1) < 2 ^ 64
    → round_up_to a (2 ^ k) ≡ (a + (2 ^ k - 1)) / 2 ^ k * 2 ^ k
unfolding round_up_to
round_up_to_lem k j a e h = rw (sub_one k j e, mod-eq_of_lt h) (mask_lem k j (a + (2 ^ k - 1)) e h)

-- On a page boundary: the least page address that is not below `a`.
pub round_up_least :
    (a : ℕ)
    → a + 4095 < 2 ^ 64
    → (round_up a % page_size ≡ 0)
      × (a ≤ round_up a)
      × ((m : ℕ) → a ≤ m * page_size → round_up a ≤ m * page_size)
unfolding round_up
round_up_least a h = (
  omega (arith, round_up_to_lem 12 52 a refl h),
  omega (arith, round_up_to_lem 12 52 a refl h),
  λ m k. omega (arith, round_up_to_lem 12 52 a refl h),
)

pub round_down-eq : (a : ℕ) → a < 2 ^ 64 → round_down a ≡ a / 4096 * 4096
unfolding round_down
round_down-eq a h = round_down_to_lem 12 52 a refl h
