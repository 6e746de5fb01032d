-- ===== src/Filesystem/DirFile.antt =====
-- `DirFile` of src/filesystem/mod.rs, the place in a directory that `getdents64` goes on from.
pub mod Clamp
use ark_rust_kernel.Prelude.{
  ℕ, ◌+◌, ◌-◌, ◌%◌, ◌^◌, ℤ, pos, negsuc, is_negative, unsigned_abs, Result, ok, err, String, List,
}
use ark_rust_kernel.Filesystem.Inode.{DirFile}
use ark_rust_kernel.Syscall.File.{SeekPosition, seek_set, seek_cur, seek_end}

abbrev moved : DirFile → ℕ → Result String ℕ × DirFile
moved f i = (ok i, record f { iterator = i })

-- `Cur` backwards stops at 0, and forwards is an addition of words.
unfoldable pub seek : DirFile → ℤ → SeekPosition → Result String ℕ × DirFile
seek f (pos n) seek_set = moved f n
seek f (negsuc n) seek_set = moved f 0
seek f (pos n) seek_cur = moved f ((f.iterator + n) % 2 ^ 64)
seek f (negsuc n) seek_cur = moved f (f.iterator - unsigned_abs (negsuc n))
seek f offset seek_end = (err "Cannot seek from end in DirFile", f)

abbrev pub read : DirFile → List ℕ → Result String ℕ
read f buf = ok 0

abbrev pub write : DirFile → List ℕ → Result String ℕ
write f buf = ok 0

abbrev pub close : DirFile → Result String (Unit {0})
close f = ok tt

abbrev pub get_dentry : DirFile → Result String ℕ
get_dentry f = ok f.dir_entry
