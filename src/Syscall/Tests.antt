-- ===== src/Syscall/Tests.antt =====
-- The theorems on the calls of src/syscall/file.rs and src/syscall/utils.rs that go by entries, at a
-- file system that `init` left.
use mathlib.Core.Path.{subst}
use ark_rust_kernel.Prelude.{
  ℕ, zero, suc, ◌-◌, ◌≡◌, ◌≤◌, refl, arith, Bool, true, false, List, [], ◌∷◌, ◌++◌, Option, some,
  done, panic, Result, ok, err, length, take, drop, ◌==◌, if◌then◌else◌, String,
}
use ark_rust_kernel.Prelude.Text.{bytes, get_name, insert_name}
use ark_rust_kernel.Filesystem.Flags.{vfs_inode_stat}
use ark_rust_kernel.Filesystem.Inode.{DirFile, Vfs}
use ark_rust_kernel.Filesystem.Dentry.{dot, fullpath, fullpath_loop}
use ark_rust_kernel.Filesystem.Dentry.Paths.{IsChild, at_root, child}
use ark_rust_kernel.Filesystem.Directory.{set_loaded, get_child}
use ark_rust_kernel.Filesystem.Fatfs.{FatState}
use ark_rust_kernel.Filesystem.Mount.Start.{started-IsRooted}
use ark_rust_kernel.Filesystem.Samples.{small_state, small_inodes, dev_only}
use ark_rust_kernel.Memory.Frames.{bump}
use ark_rust_kernel.Memory.Entry.{unknown}
use ark_rust_kernel.Memory.Paging.{Grown}
use ark_rust_kernel.Syscall.Dirents.Mapped.{InOnePage}
use ark_rust_kernel.Memory.Address.{round_up_to}
use ark_rust_kernel.Syscall.File.{at_fdcwd}
use ark_rust_kernel.Syscall.Path.{Session, chdir, getcwd, get_dentry_from_fd}
use ark_rust_kernel.Syscall.Path.Cwd.{chdir-getcwd}
use ark_rust_kernel.Syscall.Stat.{stat_of, fstat, newfstatat, kernel_stat}
use ark_rust_kernel.Syscall.Stat.Zero.{fstat_vfs_panics}
use ark_rust_kernel.Syscall.Dirents.{
  le_bytes, encode, from_dentry, write_record, dents_loop, getdents64,
}
use ark_rust_kernel.Syscall.Dirents.Decode.{parse}
use ark_rust_kernel.Syscall.Dirents.Records.{names_of, children_of}
use ark_rust_kernel.Syscall.Dirents.Ends.{HasStats, IsFull, getdents64_fills}

abbrev session : Session (FatState (List ℕ))
session = record {
  vfs = dev_only;
  opened_files = [];
  table = record { files = []; strong = λ f. 0; closed = λ f. false };
  cwd = 0;
}

abbrev no_dentry : ℕ → Result String ℕ
no_dentry f = err "none"

fstat_vfs_panics_example :
    (fstat small_inodes no_dentry session at_fdcwd true ≡ panic)
    × (newfstatat small_inodes no_dentry session at_fdcwd (some dot) true
        ≡ done (ok 0, some (kernel_stat vfs_inode_stat 0), session))
unfolding get_dentry_from_fd
fstat_vfs_panics_example =
    fstat_vfs_panics small_inodes no_dentry session at_fdcwd 0 0 refl refl refl

dev-IsChild : IsChild dev_only 0 (bytes "dev") 1
unfolding insert_name get_name
dev-IsChild = record {
  below = omega arith;
  within = omega arith;
  loaded = refl;
  back = refl;
  named = refl;
  alive = refl;
  in_dir = refl;
  proper = refl;
}

dev_path : fullpath dev_only 1 ≡ done (bytes "/dev")
unfolding fullpath fullpath_loop insert_name
dev_path = refl

chdir-getcwd_example :
    (chdir small_inodes session (some (bytes "/dev")) ≡ done (ok 0, record session { cwd = 1 }))
    × (getcwd (record session { cwd = 1 }) true 0x1000 5
        ≡ done (ok 0x1000, some (bytes "/dev" ++ (0 ∷ []))))
chdir-getcwd_example =
    chdir-getcwd small_inodes session {h = 1} {path = bytes "/dev"} 0x1000 5
      (started-IsRooted [] small_state 3) (child at_root dev-IsChild) dev_path (omega arith)
      (λ e. omega arith)

-- The drop of an entry that nothing else holds
abbrev release_all : (ℕ → Bool) → ℕ → ℕ → Bool
release_all dropped h k = if k == h then true else dropped k

abbrev all_mapped : ℕ → Option ℕ
all_mapped va = some va

abbrev listed : Vfs (FatState (List ℕ))
listed = set_loaded dev_only 0

abbrev root_file : DirFile
root_file = record { dir_entry = 0; iterator = 0 }

abbrev dev_record : List ℕ
dev_record =
    0 ∷ 0 ∷ 0 ∷ 0 ∷ 0 ∷ 0 ∷ 0 ∷ 0 ∷ 0 ∷ 0 ∷ 0 ∷ 0 ∷ 0 ∷ 0 ∷ 0 ∷ 0 ∷ 24 ∷ 0 ∷ 4 ∷ 100 ∷ 101 ∷ 118 ∷ 0
    ∷ 0 ∷ []

-- The kernel's page table, and the page of the buffer
abbrev kernel : Grown ℕ
kernel = record {
  machine = record { cells = λ p i. 0; frames = 5 };
  table = record { entries = 1; pages = 1 ∷ [] };
}

buffer_page : InOnePage all_mapped 0x1000 64
buffer_page = record { frame = 1; frame_fits = omega arith; mapped = λ i h. refl; one_page = refl }

wrote_dev :
    getdents64 bump
      (unknown 0)
      all_mapped
      small_inodes
      release_all
      (listed, kernel)
      root_file
      0x1000
      64
    ≡ done (ok 24, some (dev_record, record root_file { iterator = 1 }), (listed, kernel))
unfolding getdents64 dents_loop get_child from_dentry encode le_bytes write_record round_up_to
    insert_name
wrote_dev = refl

dev_stat : HasStats bump (unknown 0) all_mapped small_inodes release_all listed 0
unfolding insert_name
dev_stat zero c at =
    let same : 1 ≡ c = cc in
    (
      vfs_inode_stat,
      subst (λ k. stat_of small_inodes listed k ≡ done vfs_inode_stat) same refl,
      refl,
    )
dev_stat (suc i) c at = cc

getdents64_fills_example :
    (bytes : List ℕ) × (next : ℕ) × (getdents64 bump
        (unknown 0)
        all_mapped
        small_inodes
        release_all
        (listed, kernel)
        root_file
        0x1000
        64
      ≡ done
          (ok (length bytes), some (bytes, record root_file { iterator = next }), (listed, kernel)))
    × (length bytes ≤ 64)
    × (0 ≤ next)
    × (parse 65 bytes ≡ names_of listed (take (next - 0) (drop 0 (children_of listed 0))))
    × IsFull bump (unknown 0) all_mapped small_inodes release_all listed 0 64 bytes next
unfolding insert_name
getdents64_fills_example =
    getdents64_fills bump (unknown 0) all_mapped small_inodes release_all listed kernel root_file
      0x1000 64 refl dev_stat refl buffer_page (omega arith)
