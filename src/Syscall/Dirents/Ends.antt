-- ===== src/Syscall/Dirents/Ends.antt =====
-- `getdents64` of src/syscall/file.rs comes to its end, within the buffer.
use ark_rust_kernel.Prelude.{
  ℕ, zero, suc, ◌+◌, ◌-◌, ◌%◌, ◌^◌, ◌<◌, ◌≤◌, ◌≡◌, refl, ◌∙◌, ap, arith, Bool, true, ltb, ◌==◌,
  List, [], ◌++◌, Option, none, some, Outcome, done, assert, ◌>>=◌, ◌>>◌, ok, length, get_elem?,
  drop, take, Bool-cases, ◌⊎◌, inl, inr, pos, bit_and, not_usize, length-append,
}
use ark_rust_kernel.Prelude.Text.{Text}
use ark_rust_kernel.Memory.Address.{to_offset}
use ark_rust_kernel.Filesystem.Flags.{InodeStat, all_modes, mask_file_type}
use ark_rust_kernel.Filesystem.Inode.{DirFile, Inodes, Vfs, dentry}
use ark_rust_kernel.Filesystem.Directory.{Answer, nth_child}
use ark_rust_kernel.Syscall.Stat.{stat_of}
use ark_rust_kernel.Memory.Frames.{FrameAllocator}
use ark_rust_kernel.Memory.Entry.{VendorId}
use ark_rust_kernel.Memory.Paging.{Grown}
use ark_rust_kernel.Syscall.Dirents.{
  Rest, Dents, le_bytes, encode, entry_type, from_dentry, encode_child, write_record, put_record,
  by_child, dents_loop, dents_answer, getdents64,
}
use ark_rust_kernel.Syscall.Dirents.Records.{children_of, names_of, all_short}
use ark_rust_kernel.Syscall.Dirents.Decode.{parse}
use ark_rust_kernel.Syscall.Dirents.Mapped.{InOnePage, write_mapped}
use ark_rust_kernel.Syscall.Dirents.Listing.{get_child_listed, getdents64_lists}

-- A record has a byte at least.
encode-length : (ino off d_type : ℕ) (name : Text) → 1 ≤ length (encode ino off d_type name)
unfolding encode le_bytes
encode-length ino off d_type name = omega arith

from_dentry_done :
    (stat : InodeStat) (name : Text) (i : ℕ)
    → bit_and (stat.mode % 2 ^ 32) (not_usize all_modes) ≡ 0
    → (b : List ℕ) × (from_dentry stat name i ≡ done b) × (1 ≤ length b)
unfolding from_dentry
from_dentry_done stat name i known =
    let d_type = entry_type (mask_file_type (stat.mode % 2 ^ 32)) in
    (
      encode stat.ino i d_type name,
      ap (λ k. assert (k == 0) >> done (encode stat.ino i d_type name)) known,
      encode-length stat.ino i d_type name,
    )

module _ (fa : FrameAllocator) (vendor : VendorId) (translate : ℕ → Option ℕ) {W : Type 0}
    (ops : Inodes W) (release : (ℕ → Bool) → ℕ → ℕ → Bool) (v : Vfs W) (d : ℕ) where
  -- Every child of the directory has a stat, whose mode is a `FileModes`.
  abbrev pub HasStats : Type 0
  HasStats =
      (i c : ℕ)
      → get_elem? (children_of v d) i ≡ some c
      → (stat : InodeStat) × (stat_of ops v c ≡ done stat)
        × (bit_and (stat.mode % 2 ^ 32) (not_usize all_modes) ≡ 0)

  -- There is no child at `next`, or its record does not fit after the bytes.
  abbrev pub IsFull : ℕ → List ℕ → ℕ → Type 0
  IsFull room bytes next =
      (nth_child v d next ≡ none)
      ⊎ ((c : ℕ) × (b : List ℕ) × (nth_child v d next ≡ some c)
          × (encode_child fa vendor translate ops release v c next ≡ done b)
          × (room < length bytes + length b))

  after-IsFull :
      (room : ℕ) (b bytes : List ℕ) (next : ℕ)
      → length b ≤ room
      → IsFull (room - length b) bytes next
      → IsFull room (b ++ bytes) next
  after-IsFull room b bytes next short (inl last) = inl last
  after-IsFull room b bytes next short (inr (c, b', at, enc, full)) =
      let placed = length-append b bytes in
      let longer : room < length (b ++ bytes) + length b' = omega arith in
      inr (c, b', at, enc, longer)

  encoded :
      (i c : ℕ)
      → HasStats
      → get_elem? (children_of v d) i ≡ some c
      → (b : List ℕ) × (encode_child fa vendor translate ops release v c i ≡ done b)
        × (1 ≤ length b)
  encoded i c stats at =
      let (stat, e, known) = stats i c at in
      let (b, made, long) = from_dentry_done stat (dentry v c).name i known in
      (
        b,
        ap (λ (m : Outcome InodeStat). m >>= λ s. from_dentry s (dentry v c).name i) e ∙ made,
        long,
      )

  module _ (k : Grown fa.State) where
    -- The loop comes to its end, with as many records as there is room for.
    abbrev pub Ends : Dents fa vendor translate ops release → ℕ → Type 0
    Ends m room =
        (bytes : List ℕ) × (next : ℕ) × (m ≡ done (some (bytes, next), (v, k)))
        × (length bytes ≤ room)
        × IsFull room bytes next

    put-Ends :
        (rest : Rest fa vendor translate ops release) (i cur room c : ℕ) (b : List ℕ)
        → nth_child v d i ≡ some c
        → encode_child fa vendor translate ops release v c i ≡ done b
        → (length b ≤ room → write_record fa vendor translate k cur b ≡ done k)
        → (length b ≤ room
            → Ends
                (rest (v, k) (i + 1) (to_offset cur (pos (length b))) (room - length b))
                (room - length b))
        → Ends (put_record fa vendor translate ops release rest (v, k) i cur room b) room
    put-Ends rest i cur room c b at enc wrote later = elim (Bool-cases (ltb room (length b))) [
      | inl full ↦
          let over : room < 0 + length b = ground arith in
          ([], i, rw (put_record, full) refl, omega arith, inr (c, b, at, enc, over))
      | inr fits ↦
          let short : length b ≤ room = ground arith in
          let (bytes, next, looped, small, filled) = later short in
          let placed = length-append b bytes in
          (
            b ++ bytes,
            next,
            rw (put_record, fits, wrote short, looped) refl,
            omega arith,
            after-IsFull room b bytes next short filled,
          )
    ]

    child-Ends :
        (rest : Rest fa vendor translate ops release) (i cur room : ℕ) (o : Option ℕ)
        → nth_child v d i ≡ o
        → ((b : List ℕ) → length b ≤ room → write_record fa vendor translate k cur b ≡ done k)
        → ((b : List ℕ)
            → 1 ≤ length b
            → length b ≤ room
            → Ends
                (rest (v, k) (i + 1) (to_offset cur (pos (length b))) (room - length b))
                (room - length b))
        → HasStats
        → Ends (by_child fa vendor translate ops release rest k i cur room (ok o, v)) room
    child-Ends rest i cur room none at wrote later stats = ([], i, refl, omega arith, inl at)
    child-Ends rest i cur room (some c) at wrote later stats =
        let (b, enc, long) = encoded i c stats at in
        let (bytes, next, e, small, filled) =
          put-Ends rest i cur room c b at enc (wrote b) (later b long) in
        (
          bytes,
          next,
          ap (λ m. m >>= put_record fa vendor translate ops release rest (v, k) i cur room) enc ∙ e,
          small,
          filled,
        )

    loop-Ends :
        (buf len : ℕ)
        → InOnePage translate buf len
        → buf + len + 4096 < 2 ^ 64
        → (dentry v d).children_fully_loaded ≡ true
        → HasStats
        → (fuel i cur room : ℕ) → room < fuel
        → buf ≤ cur
        → cur + room ≡ buf + len
        → Ends (dents_loop fa vendor translate ops release fuel d (v, k) i cur room) room
    unfolding dents_loop
    loop-Ends buf len all fits loaded stats zero i cur room enough low ends = elim enough [ ]
    loop-Ends buf len all fits loaded stats (suc fuel) i cur room enough low ends =
        let (bytes, next, e, small, filled) =
          child-Ends (dents_loop fa vendor translate ops release fuel d) i cur room
            (nth_child v d i) refl
            (λ b short. write_mapped fa vendor translate k buf len cur b all low (omega arith))
            (λ b long short.
              let moved : to_offset cur (pos (length b)) ≡ cur + length b = omega arith in
              loop-Ends buf len all fits loaded stats fuel (i + 1) (to_offset cur (pos (length b)))
                (room - length b) (omega arith) (omega arith) (omega arith))
            stats in
        (
          bytes,
          next,
          ap
                (λ (m : Answer W (Option ℕ)).
                  m
                  >>= by_child fa vendor translate ops release
                      (dents_loop fa vendor translate ops release fuel d) k i cur room)
                (get_child_listed fa vendor translate ops release v d i loaded)
              ∙ e,
          small,
          filled,
        )

-- Where the children of a directory are loaded and have stats, their names have no zero byte and fit in
-- a record, and the buffer and the byte behind it lie in one page that is mapped, `getdents64` succeeds,
-- and leaves the kernel's page table alone. What it writes fits in the buffer and decodes to the names of the children from its place on, up to one that
-- is not there or whose record does not fit behind them; the result is the number of bytes, and the
-- directory goes on from there.
pub getdents64_fills :
    (fa : FrameAllocator) (vendor : VendorId) (translate : ℕ → Option ℕ) {W : Type 0}
    (ops : Inodes W) (release : (ℕ → Bool) → ℕ → ℕ → Bool) (v : Vfs W) (k : Grown fa.State)
    (f : DirFile) (buf len : ℕ)
    → (dentry v f.dir_entry).children_fully_loaded ≡ true
    → HasStats fa vendor translate ops release v f.dir_entry
    → all_short v (children_of v f.dir_entry) ≡ true
    → InOnePage translate buf len
    → buf + len + 4096 < 2 ^ 64
    → (bytes : List ℕ) × (next : ℕ) × (getdents64 fa vendor translate ops release (v, k) f buf len
        ≡ done (ok (length bytes), some (bytes, record f { iterator = next }), (v, k)))
      × (length bytes ≤ len)
      × (f.iterator ≤ next)
      × (parse (suc len) bytes
          ≡ names_of v (take (next - f.iterator) (drop f.iterator (children_of v f.dir_entry))))
      × IsFull fa vendor translate ops release v f.dir_entry len bytes next
unfolding getdents64
getdents64_fills fa vendor translate ops release v k f buf len loaded stats short all fits =
    let (bytes, next, looped, small, filled) =
      loop-Ends fa vendor translate ops release v f.dir_entry k buf len all fits loaded stats
        (suc len) f.iterator buf len (omega arith) (omega arith) refl in
    let ended =
      ap (λ (m : Dents fa vendor translate ops release). m >>= λ r. done (dents_answer f r))
        looped in
    let (_, later, listed) =
      getdents64_lists fa vendor translate ops release v k f buf len (length bytes) bytes
        (record f { iterator = next }) (v, k) loaded short ended in
    (bytes, next, ended, small, later, listed, filled)
