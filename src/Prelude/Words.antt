-- ===== src/Prelude/Words.antt =====
-- `usize` and `isize` arithmetic of riscv64: the wrap-around is written out.
use Prim.Native.Nat.{ℕ, suc, ◌+◌, ◌-◌, ◌*◌, ◌/◌, ◌%◌, ◌^◌}
use mathlib.Core.Bool.{Bool, true, false}
use ark_rust_kernel.Prelude.Tests.{ltb, if◌then◌else◌}

abbrev pub usize_mod : ℕ
usize_mod = 2 ^ 64

abbrev pub add_usize : ℕ → ℕ → ℕ
add_usize a b = (a + b) % 2 ^ 64

-- `-` on ℕ stops at 0, so the modulus comes first.
abbrev pub sub_usize : ℕ → ℕ → ℕ
sub_usize a b = (a + 2 ^ 64 - b) % 2 ^ 64

abbrev pub mul_usize : ℕ → ℕ → ℕ
mul_usize a b = (a * b) % 2 ^ 64

-- `!a`, and the shifts
abbrev pub not_usize : ℕ → ℕ
not_usize a = 2 ^ 64 - 1 - a

abbrev pub shl_usize : ℕ → ℕ → ℕ
shl_usize a k = (a * 2 ^ k) % 2 ^ 64

abbrev pub shr_usize : ℕ → ℕ → ℕ
shr_usize a k = a / 2 ^ k

-- `isize`: `negsuc n` is -(n + 1).
pub data ℤ : Type 0 where
  pos : ℕ → ℤ
  negsuc : ℕ → ℤ

-- `x as isize`, and the two parts that the kernel takes an `isize` apart by
abbrev pub as_isize : ℕ → ℤ
as_isize x = if ltb x (2 ^ 63) then pos x else negsuc (2 ^ 64 - x - 1)

abbrev pub is_negative : ℤ → Bool
is_negative (pos n) = false
is_negative (negsuc n) = true

abbrev pub unsigned_abs : ℤ → ℕ
unsigned_abs (pos n) = n
unsigned_abs (negsuc n) = suc n
