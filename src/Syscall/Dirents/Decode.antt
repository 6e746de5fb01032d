-- ===== src/Syscall/Dirents/Decode.antt =====
-- A reader of the records that `DirEnt64::from_dentry` of src/syscall/c/mod.rs makes.
use ark_rust_kernel.Prelude.{
  ℕ, zero, suc, ◌+◌, ◌-◌, ◌*◌, ◌/◌, ◌%◌, ◌<◌, ◌≡◌, refl, sym, ◌∙◌, ap, arith, Bool, true, ◌&&◌, not,
  ltb, ◌==◌, if◌then◌else◌, List, [], ◌∷◌, ◌++◌, length, get_or, drop, length-append,
}
use ark_rust_kernel.Prelude.Text.{Text}
use ark_rust_kernel.Memory.Address.Rounding.{round_up_to_lem}
use ark_rust_kernel.Filesystem.Dentry.Paths.{append_assoc}
use ark_rust_kernel.Syscall.Dirents.{le_bytes, record_len, zeros, encode, header_size}

-- The length of the first record, from its bytes 16 and 17, and its name
abbrev pub rec_len : List ℕ → ℕ
rec_len bytes = get_or bytes 16 0 + 256 * get_or bytes 17 0

abbrev pub until_zero : List ℕ → Text
until_zero [] = []
until_zero (c ∷ cs) = if c == 0 then [] else c ∷ until_zero cs

-- The names of at most `n` records
unfoldable pub parse : ℕ → List ℕ → List Text
parse zero bytes = []
parse (suc n) [] = []
parse (suc n) (b ∷ bs) = until_zero (drop 19 (b ∷ bs)) ∷ parse n (drop (rec_len (b ∷ bs)) (b ∷ bs))

-- A name without zero bytes, whose record has a length of 16 bits
abbrev pub no_zero : Text → Bool
no_zero [] = true
no_zero (c ∷ cs) = not (c == 0) && no_zero cs

abbrev pub is_short : Text → Bool
is_short name = no_zero name && ltb (length name) 65_000

record_len_lem : (name : Text) → length name < 65_000 → record_len name ≡ (length name + 27) / 8 * 8
record_len_lem name h =
    let same : header_size + length name + 1 + 7 ≡ length name + 27 = omega arith in
    round_up_to_lem 3 61 (header_size + length name + 1) refl (omega arith)
    ∙ ap (λ (n : ℕ). n / 8 * 8) same

length-zeros : (n : ℕ) → length (zeros n) ≡ n
length-zeros zero = refl
length-zeros (suc n) = ap suc (length-zeros n)

until_zero-name :
    (name : Text) (n : ℕ) (rest : List ℕ)
    → no_zero name ≡ true
    → until_zero (name ++ (zeros (suc n) ++ rest)) ≡ name
until_zero-name [] n rest h = ground arith
until_zero-name (c ∷ cs) n rest h = ground (arith, until_zero-name cs n rest)

drop-append : (xs ys : List ℕ) → drop (length xs) (xs ++ ys) ≡ ys
drop-append [] ys = refl
drop-append (x ∷ xs) ys = drop-append xs ys

module _ (ino off d_type : ℕ) (name : Text) where
  -- How many zeros a record ends in
  abbrev padding : ℕ
  padding = record_len name - (length name + 19)

  padding_lem :
      (rest : List ℕ)
      → drop 19 (encode ino off d_type name ++ rest) ≡ name ++ (zeros padding ++ rest)
  unfolding encode le_bytes
  padding_lem rest =
      let same : suc (
            suc (
              suc (
                suc (
                  suc (
                    suc (
                      suc (
                        suc (
                          suc (
                            suc (
                              suc (
                                suc
                                  (suc (suc (suc (suc (suc (suc (suc (length name)))))))))))))))))))
          ≡ length name + 19 =
        omega arith in
      append_assoc name
        (zeros (
          record_len name
          - suc (
              suc (
                suc (
                  suc (
                    suc (
                      suc (
                        suc (
                          suc (
                            suc (
                              suc (
                                suc (
                                  suc (
                                    suc (
                                      suc (suc (suc (suc (suc (suc (length name)))))))))))))))))))))
        rest
      ∙ ap (λ (k : ℕ). name ++ (zeros (record_len name - k) ++ rest)) same

  pub length-encode : length name < 65_000 → length (encode ino off d_type name) ≡ record_len name
  unfolding encode le_bytes
  length-encode h =
      let len = record_len_lem name h in
      let body =
        le_bytes 8 ino
        ++ (le_bytes 8 off ++ (le_bytes 2 (record_len name) ++ ((d_type % 256) ∷ name))) in
      let more = length-zeros (record_len name - length body) in
      let whole = length-append body (zeros (record_len name - length body)) in omega arith

  rec_len-encode :
      (rest : List ℕ)
      → length name < 65_000
      → rec_len (encode ino off d_type name ++ rest) ≡ record_len name
  unfolding encode le_bytes
  rec_len-encode rest h = let len = record_len_lem name h in omega arith

parse_more :
    (k : ℕ) (bytes : List ℕ)
    → 0 < length bytes
    → parse (suc k) bytes ≡ until_zero (drop 19 bytes) ∷ parse k (drop (rec_len bytes) bytes)
unfolding parse
parse_more k [] h = elim h [ ]
parse_more k (b ∷ bs) h = refl

short_parts : (name : Text) → is_short name ≡ true → (no_zero name ≡ true) × (length name < 65_000)
short_parts name h = ground arith

-- Of a record and what is behind it, a reader takes the name and what is behind.
pub parse-encode :
    (k ino off d_type : ℕ) (name : Text) (rest : List ℕ)
    → is_short name ≡ true
    → parse (suc k) (encode ino off d_type name ++ rest) ≡ name ∷ parse k rest
parse-encode k ino off d_type name rest short =
    let (plain, little) = short_parts name short in
    let len = record_len_lem name little in
    let size = length-encode ino off d_type name little in
    let record_bytes = encode ino off d_type name in
    let whole = length-append record_bytes rest in
    let pad : padding ino off d_type name ≡ suc (padding ino off d_type name - 1) = omega arith in
    let named : until_zero (drop 19 (record_bytes ++ rest)) ≡ name =
      ap until_zero
        (padding_lem ino off d_type name rest ∙ ap (λ (n : ℕ). name ++ (zeros n ++ rest)) pad)
      ∙ until_zero-name name (padding ino off d_type name - 1) rest plain in
    let left : drop (rec_len (record_bytes ++ rest)) (record_bytes ++ rest) ≡ rest =
      ap (λ (n : ℕ). drop n (record_bytes ++ rest))
        (rec_len-encode ino off d_type name rest little ∙ sym size)
      ∙ drop-append record_bytes rest in
    parse_more k (record_bytes ++ rest) (omega arith)
    ∙ ap (λ (t : Text). t ∷ parse k (drop (rec_len (record_bytes ++ rest)) (record_bytes ++ rest)))
        named
    ∙ ap (λ (r : List ℕ). name ∷ parse k r) left
