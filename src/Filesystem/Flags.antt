-- ===== src/Filesystem/Flags.antt =====
-- `FileOpenFlags`, `FileModes` and `InodeStat` of src/filesystem/mod.rs. The sets of `bitflags!` are
-- their bits.
use ark_rust_kernel.Prelude.{
  ℕ, ◌%◌, ◌^◌, ◌≡◌, arith, Bool, false, ◌&&◌, ◌||◌, not, bit_and, ◌==◌, not_usize, Outcome, done,
  assert, ◌>>◌,
}
use ark_rust_kernel.Prelude.Bits.{bit_and-zero}
use ark_rust_kernel.Memory.Entry.{contains_flag}

abbrev pub o_rdonly : ℕ
o_rdonly = 0

abbrev pub o_wronly : ℕ
o_wronly = 1

abbrev pub o_rdwr : ℕ
o_rdwr = 2

abbrev pub o_creat : ℕ
o_creat = 0x40

abbrev pub o_excl : ℕ
o_excl = 0x80

abbrev pub o_directory : ℕ
o_directory = 0x1_0000

-- All flags of `FileOpenFlags`, and all bits of `FileModes`
abbrev pub all_open_flags : ℕ
all_open_flags = 0x29_8EC3

abbrev pub all_modes : ℕ
all_modes = 0xF1FF

-- `From<usize>`: bits that are no flags panic.
unfoldable pub open_flags_from : ℕ → Outcome ℕ
open_flags_from value =
    assert (bit_and (value % 2 ^ 32) (not_usize all_open_flags) == 0) >> done (value % 2 ^ 32)

unfoldable pub modes_from : ℕ → Outcome ℕ
modes_from value =
    assert (bit_and (value % 2 ^ 32) (not_usize all_modes) == 0) >> done (value % 2 ^ 32)

abbrev pub is_read : ℕ → Bool
is_read flags = not (contains_flag flags o_wronly)

abbrev pub is_write : ℕ → Bool
is_write flags = not (contains_flag flags o_rdonly)

abbrev pub is_directory : ℕ → Bool
is_directory flags = contains_flag flags o_directory

abbrev pub is_create : ℕ → Bool
is_create flags = contains_flag flags o_creat

abbrev pub must_create : ℕ → Bool
must_create flags = contains_flag flags o_creat && contains_flag flags o_excl

-- The modes: 0o400, 0o200 and 0o100 of the owner, and so on.
abbrev pub owner : ℕ → Bool × Bool × Bool
owner m = (contains_flag m 256, contains_flag m 128, contains_flag m 64)

abbrev pub group : ℕ → Bool × Bool × Bool
group m = (contains_flag m 32, contains_flag m 16, contains_flag m 8)

abbrev pub others : ℕ → Bool × Bool × Bool
others m = (contains_flag m 4, contains_flag m 2, contains_flag m 1)

abbrev pub mode_is_read : ℕ → Bool
mode_is_read m = contains_flag m 256 || contains_flag m 32 || contains_flag m 4

abbrev pub mode_is_write : ℕ → Bool
mode_is_write m = contains_flag m 128 || contains_flag m 16 || contains_flag m 2

abbrev pub mode_is_exec : ℕ → Bool
mode_is_exec m = contains_flag m 64 || contains_flag m 8 || contains_flag m 1

-- `& 0o170_000`
abbrev pub mask_file_type : ℕ → ℕ
mask_file_type m = bit_and m 0xF000

pub record InodeStat : Type 0 where
  pub ino : ℕ
  pub mode : ℕ
  pub nlink : ℕ
  pub size : ℕ
  pub block_size : ℕ

-- `DIRECTORY | Read | Write | Exec`
abbrev pub vfs_inode_stat : InodeStat
vfs_inode_stat = record { ino = 0; mode = 0x41FF; nlink = 1; size = 0; block_size = 0 }

-- No flags are taken for a write: `O_RDONLY` has no bits, so every set contains it, `O_RDWR` too.
pub never_write : (flags : ℕ) → is_write flags ≡ false
never_write flags = ground (arith, bit_and-zero flags)
