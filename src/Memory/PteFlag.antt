-- ===== src/Memory/PteFlag.antt =====
-- `PTEFlags` of src/memory/paging.rs: the flag of bit `i` is `2 ^ i`.
use ark_rust_kernel.Prelude.{ℕ}

abbrev pub v : ℕ
v = 1

abbrev pub r : ℕ
r = 2

abbrev pub w : ℕ
w = 4

abbrev pub x : ℕ
x = 8

abbrev pub u : ℕ
u = 16

abbrev pub g : ℕ
g = 32

abbrev pub a : ℕ
a = 64

abbrev pub d : ℕ
d = 128
