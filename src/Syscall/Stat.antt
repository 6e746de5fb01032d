-- ===== src/Syscall/Stat.antt =====
-- `fstat` and `newfstatat` of src/syscall/file.rs.
pub mod Zero
use ark_rust_kernel.Prelude.{
  ℕ, ◌+◌, ◌-◌, ◌/◌, ◌%◌, ◌^◌, ◌≡◌, refl, ◌∙◌, ap, arith, ◌==◌, Bool, true, false, List, Option,
  none, some, Outcome, done, panic, unwrap, assert, ◌>>◌, Result, ok, err, ◌>>=◌, if◌then◌else◌,
  String, add_usize, sub_usize,
}
use ark_rust_kernel.Prelude.Text.{Text}
use ark_rust_kernel.Filesystem.Flags.{InodeStat, vfs_inode_stat}
use ark_rust_kernel.Filesystem.Inode.{Inodes, Vfs, dentry}
use ark_rust_kernel.Filesystem.Dentry.{from_path}
use ark_rust_kernel.Syscall.Error.{SyscallError, enoent, SyscallResult}
use ark_rust_kernel.Syscall.File.{at_fdcwd}
use ark_rust_kernel.Syscall.Path.{Session, with_vfs, get_dentry_from_fd}

-- The fields of `KernelStat` that are not 0
pub record KernelStat : Type 0 where
  pub st_ino : ℕ
  pub st_mode : ℕ
  pub st_nlink : ℕ
  pub st_size : ℕ
  pub st_blksize : ℕ
  pub st_blocks : ℕ

abbrev pub kernel_stat : InodeStat → ℕ → KernelStat
kernel_stat stat blocks = record {
  st_ino = stat.ino;
  st_mode = stat.mode % 2 ^ 32;
  st_nlink = stat.nlink % 2 ^ 32;
  st_size = stat.size;
  st_blksize = stat.block_size % 2 ^ 32;
  st_blocks = blocks;
}

-- `(stat.size + stat.block_size - 1) / stat.block_size`: a division by 0 panics.
abbrev pub blocks_of : InodeStat → Outcome ℕ
blocks_of stat =
    if stat.block_size == 0
    then panic
    else done (sub_usize (add_usize stat.size stat.block_size) 1 / stat.block_size)

abbrev pub blocks_or_zero : InodeStat → Outcome ℕ
blocks_or_zero stat =
    if stat.block_size == 0
    then done 0
    else done (sub_usize (add_usize stat.size stat.block_size) 1 / stat.block_size)

-- A result, what is written for the user, and the state
abbrev pub StatCall : Type 0 → Type 0
StatCall W = Outcome (SyscallResult × Option KernelStat × Session W)

module _ {W : Type 0} (ops : Inodes W) where
  -- The inode's, or that of the file system itself
  abbrev pub stat_of : Vfs W → ℕ → Outcome InodeStat
  stat_of v d = elim (dentry v d).inode [
    | some inode ↦ ops.get_stat v.world inode
    | none ↦ done vfs_inode_stat
  ]

  -- `writable` is whether the user's address translates.
  abbrev pub write_stat : Session W → ℕ → Bool → (InodeStat → Outcome ℕ) → StatCall W
  write_stat s d writable blocks = stat_of s.vfs d >>= λ stat.
      assert writable >> blocks stat >>= λ n. done (ok 0, some (kernel_stat stat n), s)

module _ {W : Type 0} (ops : Inodes W) (inode_file_dentry : ℕ → Result String ℕ) where
  unfoldable pub fstat : Session W → ℕ → Bool → StatCall W
  fstat s fd writable = elim (get_dentry_from_fd inode_file_dentry s fd) [
    | ok d ↦ write_stat ops s d writable blocks_of
    | err e ↦ done (err e, none, s)
  ]

  unfoldable pub newfstatat : Session W → ℕ → Option Text → Bool → StatCall W
  newfstatat s dir_fd path writable = elim (get_dentry_from_fd inode_file_dentry s dir_fd) [
    | ok d ↦ unwrap path >>= λ name. from_path ops s.vfs name (some d) >>= λ r. elim r.0 [
      | some found ↦ write_stat ops (with_vfs s r.1) found writable blocks_or_zero
      | none ↦ done (err enoent, none, with_vfs s r.1)
    ]
    | err e ↦ done (err e, none, s)
  ]
