-- ===== src/Syscall/Dirents/Listing.antt =====
-- What `getdents64` of src/syscall/file.rs writes is a list of consecutive children.
use mathlib.Core.Path.{subst}
use ark_rust_kernel.Prelude.{
  ℕ, zero, suc, ◌+◌, ◌-◌, ◌≤◌, ◌≡◌, refl, sym, ◌∙◌, ap, arith, Bool, true, false, ltb, List, [],
  ◌++◌, Option, none, some, done, ◌>>=◌, >>=-eq-done, ok, length, get_elem?, drop, take, Bool-cases,
  inl, inr, pos,
}
use ark_rust_kernel.Memory.Address.{to_offset}
use ark_rust_kernel.Filesystem.Inode.{DirFile, Inodes, Vfs, dentry}
use ark_rust_kernel.Filesystem.Directory.{Answer, get_child, nth_child}
use ark_rust_kernel.Syscall.Stat.{stat_of}
use ark_rust_kernel.Memory.Frames.{FrameAllocator}
use ark_rust_kernel.Memory.Entry.{VendorId}
use ark_rust_kernel.Memory.Paging.{Grown}
use ark_rust_kernel.Syscall.Dirents.{
  After, Rest, After, Rest, Dents, behind, encode, from_dentry, encode_child, write_record,
  put_record, by_child, dents_loop, dents_answer, getdents64,
}
use ark_rust_kernel.Syscall.Dirents.Decode.{is_short, parse}
use ark_rust_kernel.Syscall.Dirents.Records.{
  children_of, names_of, all_short, short_at, from_dentry-encode, IsListing, LoopLists,
  IsListing-end, IsListing-record,
}

module _ (fa : FrameAllocator) (vendor : VendorId) (translate : ℕ → Option ℕ) {W : Type 0}
    (ops : Inodes W) (release : (ℕ → Bool) → ℕ → ℕ → Bool) (v : Vfs W) (d : ℕ) where
  abbrev rest : ℕ → Rest fa vendor translate ops release
  rest fuel = dents_loop fa vendor translate ops release fuel d

  -- A record, and what the loop has behind it
  record_lists :
      (fuel i c : ℕ) (b : List ℕ) (bytes : List ℕ) (next : ℕ)
      (s' : After fa vendor translate ops release)
      (q : Option (List ℕ × ℕ) × After fa vendor translate ops release)
      → ((more : List ℕ) (n : ℕ) (s'' : After fa vendor translate ops release)
          → q ≡ (some (more, n), s'')
          → IsListing fa vendor translate ops release v d fuel (i + 1) more n)
      → get_elem? (children_of v d) i ≡ some c
      → is_short (dentry v c).name ≡ true
      → encode_child fa vendor translate ops release v c i ≡ done b
      → behind b q ≡ (some (bytes, next), s')
      → IsListing fa vendor translate ops release v d (suc fuel) i bytes next
  record_lists fuel i c b bytes next s' (none, s'') ih at short enc e = cc
  record_lists fuel i c b bytes next s' (some (more, n), s'') ih at short enc e =
      let (stat, _, made) =
        >>=-eq-done (stat_of ops v c) (λ stat. from_dentry stat (dentry v c).name i) enc in
      let (d_type, coded) = from_dentry-encode stat (dentry v c).name i b made in
      let one =
        IsListing-record fa vendor translate ops release v d fuel i c stat.ino d_type n more at
          short (ih more n s'' refl) in
      let whole : encode stat.ino i d_type (dentry v c).name ++ more ≡ bytes =
        ap (λ (x : List ℕ). x ++ more) coded ∙ cc in
      let last : n ≡ next = cc in
      subst (λ z. IsListing fa vendor translate ops release v d (suc fuel) i bytes z) last
        (subst (λ x. IsListing fa vendor translate ops release v d (suc fuel) i x n) whole one)

  stopped :
      (k : Grown fa.State) (fuel i : ℕ) (bytes : List ℕ) (next : ℕ)
      (s' : After fa vendor translate ops release)
      → ◌≡◌ {A = Dents fa vendor translate ops release}
          (done (some ([], i), (v, k)))
          (done (some (bytes, next), s'))
      → IsListing fa vendor translate ops release v d fuel i bytes next
  stopped k fuel i bytes next s' e =
      let none_written : [] ≡ bytes = cc in
      let here : i ≡ next = cc in
      subst (λ z. IsListing fa vendor translate ops release v d fuel i bytes z) here
        (subst (λ x. IsListing fa vendor translate ops release v d fuel i x i) none_written
          (IsListing-end fa vendor translate ops release v d fuel i))

  after_record : Grown fa.State → ℕ → ℕ → ℕ → ℕ → List ℕ → Dents fa vendor translate ops release
  after_record k' fuel i cur room b =
      rest fuel (v, k') (i + 1) (to_offset cur (pos (length b))) (room - length b) >>= λ q.
      done (behind b q)

  put_fits :
      (k : Grown fa.State) (fuel i cur room : ℕ) (b : List ℕ)
      → ltb room (length b) ≡ false
      → put_record fa vendor translate ops release (rest fuel) (v, k) i cur room b
        ≡ (write_record fa vendor translate k cur b >>= λ k'. after_record k' fuel i cur room b)
  unfolding after_record
  put_fits k fuel i cur room b fits = rw (put_record, fits) refl

  put_stops :
      (k : Grown fa.State) (fuel i cur room : ℕ) (b : List ℕ)
      → ltb room (length b) ≡ true
      → put_record fa vendor translate ops release (rest fuel) (v, k) i cur room b
        ≡ done (some ([], i), (v, k))
  put_stops k fuel i cur room b full = rw (put_record, full) refl

  put_lists :
      (k : Grown fa.State) (fuel i cur room c : ℕ) (b bytes : List ℕ) (next : ℕ)
      (s' : After fa vendor translate ops release)
      → LoopLists fa vendor translate ops release v d fuel
      → get_elem? (children_of v d) i ≡ some c
      → is_short (dentry v c).name ≡ true
      → encode_child fa vendor translate ops release v c i ≡ done b
      → put_record fa vendor translate ops release (rest fuel) (v, k) i cur room b
        ≡ done (some (bytes, next), s')
      → IsListing fa vendor translate ops release v d (suc fuel) i bytes next
  unfolding after_record
  put_lists k fuel i cur room c b bytes next s' ih at short enc e =
      elim (Bool-cases (ltb room (length b))) [
        | inl full ↦
            stopped k (suc fuel) i bytes next s' (sym (put_stops k fuel i cur room b full) ∙ e)
        | inr fits ↦
            let (k', _, e1) =
              >>=-eq-done (write_record fa vendor translate k cur b)
                (λ k'. after_record k' fuel i cur room b)
                (sym (put_fits k fuel i cur room b fits) ∙ e) in
            let (q, looped, e2) =
              >>=-eq-done
                (rest fuel (v, k') (i + 1) (to_offset cur (pos (length b))) (room - length b))
                (λ q. done (behind b q)) e1 in
            record_lists fuel i c b bytes next s' q
              (λ more n s'' same.
                ih k' (i + 1) (to_offset cur (pos (length b))) (room - length b) more n s''
                  (looped ∙ ap done same))
              at short enc cc
      ]

  child_lists :
      (k : Grown fa.State) (fuel i cur room : ℕ) (o : Option ℕ) (bytes : List ℕ) (next : ℕ)
      (s' : After fa vendor translate ops release)
      → LoopLists fa vendor translate ops release v d fuel
      → all_short v (children_of v d) ≡ true
      → nth_child v d i ≡ o
      → by_child fa vendor translate ops release (rest fuel) k i cur room (ok o, v)
        ≡ done (some (bytes, next), s')
      → IsListing fa vendor translate ops release v d (suc fuel) i bytes next
  child_lists k fuel i cur room none bytes next s' ih short at e =
      stopped k (suc fuel) i bytes next s' e
  child_lists k fuel i cur room (some c) bytes next s' ih short at e =
      let (b, enc, put) =
        >>=-eq-done (encode_child fa vendor translate ops release v c i)
          (put_record fa vendor translate ops release (rest fuel) (v, k) i cur room) e in
      put_lists k fuel i cur room c b bytes next s' ih at
        (short_at v (children_of v d) i c short at) enc put

  pub get_child_listed :
      (i : ℕ)
      → (dentry v d).children_fully_loaded ≡ true
      → get_child ops release v d i ≡ done (ok (nth_child v d i), v)
  unfolding get_child
  get_child_listed i loaded = ground (arith, loaded)

  loop_lists :
      (fuel : ℕ)
      → (dentry v d).children_fully_loaded ≡ true
      → all_short v (children_of v d) ≡ true
      → LoopLists fa vendor translate ops release v d fuel
  unfolding dents_loop
  loop_lists zero loaded short k i cur room bytes next s' e = cc
  loop_lists (suc fuel) loaded short k i cur room bytes next s' e =
      child_lists k fuel i cur room (nth_child v d i) bytes next s' (loop_lists fuel loaded short)
        short refl
        (ap
            (λ (m : Answer W (Option ℕ)).
              m >>= by_child fa vendor translate ops release (rest fuel) k i cur room)
            (sym (get_child_listed i loaded))
          ∙ e)

  answer_lists :
      (f : DirFile) (len n : ℕ) (bytes : List ℕ) (f' : DirFile)
      (s' : After fa vendor translate ops release)
      (r : Option (List ℕ × ℕ) × After fa vendor translate ops release)
      → ((more : List ℕ) (next : ℕ) (s'' : After fa vendor translate ops release)
          → r ≡ (some (more, next), s'')
          → IsListing fa vendor translate ops release v d (suc len) f.iterator more next)
      → dents_answer f r ≡ (ok n, some (bytes, f'), s')
      → (n ≡ length bytes)
        × IsListing fa vendor translate ops release v d (suc len) f.iterator bytes f'.iterator
  answer_lists f len n bytes f' s' (none, s'') looped e = cc
  answer_lists f len n bytes f' s' (some (more, next), s'') looped e =
      let same : more ≡ bytes = cc in
      let moved : next ≡ f'.iterator = cc in
      let counted : length more ≡ n = cc in
      (
        sym counted ∙ ap (λ (x : List ℕ). length x) same,
        subst (λ z. IsListing fa vendor translate ops release v d (suc len) f.iterator bytes z)
            moved
            (subst (λ x. IsListing fa vendor translate ops release v d (suc len) f.iterator x next)
              same (looped more next s'' refl)),
      )

-- Where the children of a directory are loaded, and their names have no zero byte and fit in a record,
-- what `getdents64` writes decodes to the names of the children from its place on, as many as it goes
-- on by, and the result is the number of bytes.
pub getdents64_lists :
    (fa : FrameAllocator) (vendor : VendorId) (translate : ℕ → Option ℕ) {W : Type 0}
    (ops : Inodes W) (release : (ℕ → Bool) → ℕ → ℕ → Bool) (v : Vfs W) (k : Grown fa.State)
    (f : DirFile) (buf len n : ℕ) (bytes : List ℕ) (f' : DirFile)
    (s' : After fa vendor translate ops release)
    → (dentry v f.dir_entry).children_fully_loaded ≡ true
    → all_short v (children_of v f.dir_entry) ≡ true
    → getdents64 fa vendor translate ops release (v, k) f buf len
      ≡ done (ok n, some (bytes, f'), s')
    → (n ≡ length bytes)
      × (f.iterator ≤ f'.iterator)
      × (parse (suc len) bytes
          ≡ names_of v
              (take (f'.iterator - f.iterator) (drop f.iterator (children_of v f.dir_entry))))
unfolding getdents64
getdents64_lists fa vendor translate ops release v k f buf len n bytes f' s' loaded short e =
    let (r, looped, a) =
      >>=-eq-done
        (dents_loop fa vendor translate ops release (suc len) f.dir_entry (v, k) f.iterator buf len)
        (λ r. done (dents_answer f r)) e in
    let (counted, listing) =
      answer_lists fa vendor translate ops release v f.dir_entry f len n bytes f' s' r
        (λ more next s'' same.
          loop_lists fa vendor translate ops release v f.dir_entry (suc len) loaded short k
            f.iterator buf len more next s'' (looped ∙ ap done same))
        cc in
    (counted, listing.0, listing.1)
