-- ===== src/Memory/Entry/Fields.antt =====
-- What can be read back of a page table entry, src/memory/paging.rs.
use ark_rust_kernel.Prelude.{
  ℕ, ◌+◌, ◌*◌, ◌/◌, ◌%◌, ◌^◌, ◌<◌, ◌≡◌, ◌∙◌, ap, refl, arith, Bool, true, bit_and, bit_or, ◌==◌,
  ltb, ◌&&◌, ==_iff,
}
use ark_rust_kernel.Prelude.Bits.{
  bit_and-low, bit_or-fields, bit_or-above, holds_below, holds_below_lem,
}
use ark_rust_kernel.Memory.PteFlag
use ark_rust_kernel.Memory.Entry.{
  VendorId, unknown, andes, si_five, t_head, entry_new, entry_page_id, entry_flags, valid,
  prepare_flags, extend_bits, leaf_entry,
}

-- An entry is its page id above ten bits, of which the flags take eight.
pub entry_new_lem :
    (page_id flags : ℕ)
    → page_id < 2 ^ 44
    → flags < 2 ^ 8
    → entry_new page_id flags ≡ page_id * 2 ^ 10 + flags
unfolding entry_new
entry_new_lem p f h k = ground (arith, bit_or-fields 10 p f (omega arith))

pub entry_page_id_lem : (e : ℕ) → entry_page_id e ≡ e / 2 ^ 10 % 2 ^ 44
unfolding entry_page_id
entry_page_id_lem e = bit_and-low 44 (e / 2 ^ 10)

-- The valid flag is the lowest bit.
pub valid_lem : (e : ℕ) → valid e ≡ (e % 2 == 1)
unfolding valid
valid_lem e = ground (arith, bit_and-low 1 (e % 256))

prepared : ℕ → Bool
prepared f =
    ltb (prepare_flags f) 256
    && ((prepare_flags f % 2 == 1)
        && (bit_and (prepare_flags f) (PteFlag.r + PteFlag.w + PteFlag.x + PteFlag.u + PteFlag.g)
            == bit_and f (PteFlag.r + PteFlag.w + PteFlag.x + PteFlag.u + PteFlag.g)))

prepared_table : holds_below prepared 256 ≡ true
unfolding holds_below prepared prepare_flags
prepared_table = refl

-- `prepare_flags` sets the valid flag, stays within the eight flags, and keeps the permissions.
pub prepare_flags_lem :
    (f : ℕ)
    → f < 2 ^ 8
    → (prepare_flags f < 2 ^ 8)
      × (prepare_flags f % 2 ≡ 1)
      × (bit_and (prepare_flags f) (PteFlag.r + PteFlag.w + PteFlag.x + PteFlag.u + PteFlag.g)
          ≡ bit_and f (PteFlag.r + PteFlag.w + PteFlag.x + PteFlag.u + PteFlag.g))
unfolding prepared
prepare_flags_lem f h = ground (arith, holds_below_lem prepared 256 f prepared_table h)

-- The extension bits lie above the page id.
extend_bits_high :
    (vd : VendorId) (va : ℕ) → extend_bits vd va ≡ extend_bits vd va / 2 ^ 54 * 2 ^ 54
unfolding extend_bits
extend_bits_high t_head va = ground arith
extend_bits_high (unknown n) va = refl
extend_bits_high andes va = refl
extend_bits_high si_five va = refl

leaf_entry-eq :
    (vd : VendorId) (va p f : ℕ)
    → p < 2 ^ 44
    → f < 2 ^ 8
    → leaf_entry vd va p f ≡ extend_bits vd va / 2 ^ 54 * 2 ^ 54 + (p * 2 ^ 10 + prepare_flags f)
unfolding leaf_entry
leaf_entry-eq vd va p f h k =
    ap (bit_or (entry_new p (prepare_flags f))) (extend_bits_high vd va)
    ∙ bit_or-above 54 (extend_bits vd va / 2 ^ 54) (entry_new p (prepare_flags f))
        (omega (arith, new, flags))
    ∙ ap (λ t. extend_bits vd va / 2 ^ 54 * 2 ^ 54 + t) new
  where
    flags : (prepare_flags f < 2 ^ 8) × (prepare_flags f % 2 ≡ 1)
    flags = ((prepare_flags_lem f k).0, (prepare_flags_lem f k).1)

    new : entry_new p (prepare_flags f) ≡ p * 2 ^ 10 + prepare_flags f
    new = entry_new_lem p (prepare_flags f) h (prepare_flags_lem f k).0

-- The entry that `set_pte` writes is valid, and leads to the page that it was made for, whatever
-- extension bits the vendor wants.
pub leaf_entry_lem :
    (vd : VendorId) (va page_id flags : ℕ)
    → page_id < 2 ^ 44
    → flags < 2 ^ 8
    → (valid (leaf_entry vd va page_id flags) ≡ true)
      × (entry_page_id (leaf_entry vd va page_id flags) ≡ page_id)
      × (entry_flags (leaf_entry vd va page_id flags) ≡ prepare_flags flags)
leaf_entry_lem vd va p f h k =
    let e = leaf_entry-eq vd va p f h k in
    let flags = prepare_flags_lem f k in
    (
      rw (valid_lem (leaf_entry vd va p f)) ((==_iff _ 1).1 (omega arith)),
      omega (arith, entry_page_id_lem (leaf_entry vd va p f)),
      omega arith,
    )
