-- ===== src/Filesystem/DirFile/Clamp.antt =====
-- `DirFile::seek` of src/filesystem/mod.rs against a position that is a clamped sum of integers.
use ark_rust_kernel.Prelude.{
  ℕ, zero, suc, ◌+◌, ◌-◌, ◌^◌, ◌<◌, ◌≡◌, ◌≢◌, ◌∙◌, ◌%◌, sym, refl, arith, ap, ℤ, pos, negsuc,
  unsigned_abs, Result, ok, String,
}
use ark_rust_kernel.Filesystem.Inode.{DirFile}
use ark_rust_kernel.Filesystem.DirFile.{seek}
use ark_rust_kernel.Syscall.File.{SeekPosition, seek_set, seek_cur, seek_end}

-- `a - b` of two numbers, as an integer
abbrev difference : ℕ → ℕ → ℤ
difference a zero = pos a
difference zero (suc b) = negsuc b
difference (suc a) (suc b) = difference a b

infixl 30 ◌+ℤ◌
abbrev ◌+ℤ◌ : ℤ → ℤ → ℤ
pos a +ℤ pos b = pos (a + b)
pos a +ℤ negsuc b = difference a (suc b)
negsuc a +ℤ pos b = difference b (suc a)
negsuc a +ℤ negsuc b = negsuc (suc (a + b))

-- What is below 0 becomes 0.
abbrev clamp : ℤ → ℕ
clamp (pos n) = n
clamp (negsuc n) = 0

-- What a seek is relative to
abbrev origin : DirFile → SeekPosition → ℕ
origin f seek_cur = f.iterator
origin f _ = 0

clamp-difference : (a b : ℕ) → clamp (difference a b) ≡ a - b
clamp-difference a zero = omega arith
clamp-difference zero (suc b) = omega arith
clamp-difference (suc a) (suc b) = clamp-difference a b ∙ omega arith

-- The number after a seek, as the code computes it
abbrev seek_to : ℕ → DirFile → Result String ℕ × DirFile
seek_to i f = (ok i, record f { iterator = i })

small : (a : ℕ) → a < 2 ^ 64 → a % 2 ^ 64 ≡ a
small a h = omega arith

-- Where a seek does not count from the end, and the position it reaches fits in a word, it reaches
-- the sum of where it counts from and the offset as integers, or 0 if that is negative.
pub seek-clamp :
    (f : DirFile) (offset : ℤ) (whence : SeekPosition)
    → whence ≢ seek_end
    → origin f whence + unsigned_abs offset < 2 ^ 64
    → seek f offset whence ≡ seek_to (clamp (pos (origin f whence) +ℤ offset)) f
unfolding seek
seek-clamp f (pos n) seek_set not_end h =
    let same : n ≡ 0 + n = omega arith in ap (λ (i : ℕ). seek_to i f) same
seek-clamp f (negsuc n) seek_set not_end h = refl
seek-clamp f (pos n) seek_cur not_end h = ap (λ (i : ℕ). seek_to i f) (small (f.iterator + n) h)
seek-clamp f (negsuc n) seek_cur not_end h =
    ap (λ (i : ℕ). seek_to i f) (sym (clamp-difference f.iterator (suc n)))
seek-clamp f (pos n) seek_end not_end h = absurd (not_end refl)
seek-clamp f (negsuc n) seek_end not_end h = absurd (not_end refl)
