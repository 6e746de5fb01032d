-- ===== src/Process/Memory/SetBrk.antt =====
-- When `set_brk` succeeds, and when it panics: src/process/process_memory.rs.
use ark_rust_kernel.Prelude.{
  ℕ, suc, ◌+◌, ◌-◌, ◌*◌, ◌/◌, ◌%◌, ◌^◌, ◌≤◌, ◌<◌, ◌≡◌, ◌≢◌, ◌∙◌, ap, refl, sym, arith, false, none,
  ltb, done, panic, ◌>>=◌, >>=-eq-done, Option-cases, inl, inr, pos, negsuc, as_isize, sub_usize,
}
use mathlib.Core.Path.{subst}
use ark_rust_kernel.Prelude.Maps.{get}
use ark_rust_kernel.Memory.Address.{VirtAddr, to_offset, round_up}
use ark_rust_kernel.Memory.Address.Rounding.{round_up_to_lem}
use ark_rust_kernel.Memory.Frames.{FrameAllocator, phy_page_alloc}
use ark_rust_kernel.Memory.Entry.{VendorId}
use ark_rust_kernel.Process.Memory.{World, map_new, brk_loop, real_brk_of, set_brk, user_flags}
use ark_rust_kernel.Process.Memory.Coherent.{IsCoherent, map_twice_panics}
use ark_rust_kernel.Memory.Paging.Enough.{HasFrames}
use ark_rust_kernel.Process.Memory.Growing.{brk_loop_ends}
use ark_rust_kernel.Process.Memory.Brk.{
  Reaches, allocated, page_fits, allocated-IsCoherent, round_eq, brk_loop-Reaches,
}

-- What `set_brk` returns, over the state after its loop.
abbrev with_brk : {S : Type 0} → World S → VirtAddr → ℕ × World S
with_brk w b = (b, record w { memory = record (w.memory) { brk = b } })

done-injective : {A : Type 0} {a b : A} → done a ≡ done b → a ≡ b
done-injective e = cc

real_brk_lem :
    (brk : VirtAddr) → 0 < brk → brk < 2 ^ 32 → real_brk_of brk ≡ (brk + 4094) / 4096 * 4096
unfolding round_up
real_brk_lem brk h k =
    let back : to_offset brk (negsuc 0) ≡ brk - 1 = ground arith in
    ap round_up back
    ∙ round_up_to_lem 12 52 (brk - 1) refl (omega arith)
    ∙ (let same : (brk - 1 + (2 ^ 12 - 1)) / 2 ^ 12 * 2 ^ 12 ≡ (brk + 4094) / 4096 * 4096 =
          omega arith in
        same)

module _ (fa : FrameAllocator) (vendor : VendorId) (w : World fa.State) (new_brk : VirtAddr)
    (grows : w.memory.brk < new_brk) (small : new_brk < 2 ^ 31)
    (above_min : w.memory.min_brk ≤ new_brk) where
  set_brk_eq :
      (n : ℕ)
      → real_brk_of w.memory.brk ≡ n * 4096
      → set_brk fa vendor w new_brk ≡ (
          brk_loop fa vendor (suc (new_brk / 4096)) w (n * 4096) new_brk >>= λ w1.
          done (with_brk w1 new_brk))
  unfolding set_brk
  set_brk_eq n e =
      let low : ltb new_brk w.memory.min_brk ≡ false = ground arith in
      let up : as_isize (sub_usize new_brk w.memory.brk) ≡ pos (suc (new_brk - w.memory.brk - 1)) =
        ground arith in
      rw (low, up)
        (ap
          (λ r. brk_loop fa vendor (suc (new_brk / 4096)) w r new_brk >>= λ w1.
            done (with_brk w1 new_brk))
          e)

  grown_from :
      (n r : ℕ) (w' : World fa.State)
      → real_brk_of w.memory.brk ≡ n * 4096
      → set_brk fa vendor w new_brk ≡ done (r, w')
      → (w1 : World fa.State) × (brk_loop fa vendor (suc (new_brk / 4096)) w (n * 4096) new_brk
          ≡ done w1)
        × (with_brk w1 new_brk ≡ (r, w'))
  grown_from n r w' e f =
      let (w1, looped, last) =
        >>=-eq-done (brk_loop fa vendor (suc (new_brk / 4096)) w (n * 4096) new_brk)
          (λ w1. done (with_brk w1 new_brk)) (sym (set_brk_eq n e) ∙ f) in
      (w1, looped, done-injective last)

  -- What a `set_brk` that does not panic has done
  set_brk_grown :
      (r : ℕ) (w' : World fa.State)
      → IsCoherent fa w
      → 0 < w.memory.brk
      → w.memory.brk % 4096 ≢ 1
      → set_brk fa vendor w new_brk ≡ done (r, w')
      → (r ≡ new_brk)
        × (w'.memory.brk ≡ new_brk)
        × IsCoherent fa w'
        × Reaches w.memory.maps w'.memory.maps ((w.memory.brk + 4095) / 4096 * 4096) new_brk
  set_brk_grown r w' co positive odd e =
      let n : ℕ = (w.memory.brk + 4095) / 4096 in
      let (w1, looped, same) =
        grown_from n r w'
          (real_brk_lem w.memory.brk positive (omega arith)
            ∙ (let f : (w.memory.brk + 4094) / 4096 * 4096 ≡ n * 4096 = omega arith in f))
          e in
      let (co1, reaches) =
        brk_loop-Reaches fa vendor (suc (new_brk / 4096)) n w w1 new_brk co small (omega arith)
          looped in
      let set : record w1 { memory = record (w1.memory) { brk = new_brk } } ≡ w' =
        ap (λ (x : ℕ × World fa.State). x.1) same in
      (
        ap (λ (x : ℕ × World fa.State). x.0) (sym same),
        ap (λ x. x.memory.brk) (sym set),
        subst (IsCoherent fa) set
            (record { owner = co1.owner; tree = co1.tree; agrees = co1.agrees }),
        subst (λ x. Reaches w.memory.maps x.memory.maps (n * 4096) new_brk) set reaches,
      )

  set_brk_ends :
      (n c : ℕ)
      → IsCoherent fa w
      → real_brk_of w.memory.brk ≡ n * 4096
      → new_brk ≤ (n + c) * 4096
      → ((q : ℕ) → n ≤ q → q * 4096 < new_brk → get w.memory.maps q ≡ none)
      → HasFrames fa (c * 3) w.machine.frames
      → (w' : World fa.State) × (set_brk fa vendor w new_brk ≡ done (new_brk, w'))
  set_brk_ends n c co at reach unmapped f =
      let (w1, looped) =
        brk_loop_ends fa vendor (suc (new_brk / 4096)) c n w new_brk co small reach unmapped f in
      (
        record w1 { memory = record (w1.memory) { brk = new_brk } },
        set_brk_eq n at ∙ ap (λ o. o >>= λ x. done (with_brk x new_brk)) looped,
      )

  -- `set_brk` to a larger break below 2^31 that is not below `min_brk` succeeds, if no page from the old
  -- break up to the new one is mapped, and three frames can be had for each page that begins there. It
  -- sets the break and reports it, and every page from the old break's end up to it is mapped; all other
  -- pages stay, and the page table implements the map. The old break may not be one byte past a page
  -- boundary.
  pub set_brk_grows :
      IsCoherent fa w
      → 0 < w.memory.brk
      → w.memory.brk % 4096 ≢ 1
      → ((q : ℕ) → w.memory.brk ≤ q * 4096 → q * 4096 < new_brk → get w.memory.maps q ≡ none)
      → HasFrames fa (((new_brk + 4095) / 4096 - (w.memory.brk + 4095) / 4096) * 3) w.machine.frames
      → (w' : World fa.State) × (set_brk fa vendor w new_brk ≡ done (new_brk, w'))
        × (w'.memory.brk ≡ new_brk)
        × IsCoherent fa w'
        × Reaches w.memory.maps w'.memory.maps ((w.memory.brk + 4095) / 4096 * 4096) new_brk
  set_brk_grows co positive odd unmapped f =
      let n : ℕ = (w.memory.brk + 4095) / 4096 in
      let at : real_brk_of w.memory.brk ≡ n * 4096 =
        real_brk_lem w.memory.brk positive (omega arith)
        ∙ (let same : (w.memory.brk + 4094) / 4096 * 4096 ≡ n * 4096 = omega arith in same) in
      let (w', e) =
        set_brk_ends n ((new_brk + 4095) / 4096 - n) co at (omega arith)
          (λ q above below. unmapped q (omega arith) below) f in
      let (_, set, co', reaches) = set_brk_grown new_brk w' co positive odd e in
      (w', e, set, co', reaches)

module _ (fa : FrameAllocator) (vendor : VendorId) (w : World fa.State) (n : ℕ) where
  map_new_panics :
      IsCoherent fa w
      → n < 2 ^ 19
      → get w.memory.maps n ≢ none
      → map_new fa vendor w n user_flags ≡ panic
  unfolding map_new phy_page_alloc allocated
  map_new_panics co user present = elim (Option-cases (fa.alloc w.machine.frames 1)) [
    | inl full ↦ ground (arith, full)
    | inr ((page, s), a) ↦ ground (
      arith,
      a,
      map_twice_panics fa vendor (allocated fa w page s) n page user_flags user
          (page_fits fa w page s a co) (omega arith) (allocated-IsCoherent fa w page s a co)
          present,
    )
  ]

-- One byte past a page boundary, `set_brk` takes the page of the last byte for the next one to map,
-- so that every larger break panics.
pub set_brk_odd_panics :
    (fa : FrameAllocator) (vendor : VendorId) (w : World fa.State) (new_brk : VirtAddr)
    → IsCoherent fa w
    → w.memory.brk % 4096 ≡ 1
    → get w.memory.maps (w.memory.brk / 4096) ≢ none
    → w.memory.brk < new_brk
    → new_brk < 2 ^ 31
    → w.memory.min_brk ≤ new_brk
    → set_brk fa vendor w new_brk ≡ panic
set_brk_odd_panics fa vendor w new_brk co odd present grows small above_min =
    let n : ℕ = w.memory.brk / 4096 in
    set_brk_eq fa vendor w new_brk grows small above_min n (
      real_brk_lem w.memory.brk (omega arith) (omega arith)
      ∙ (let f : (w.memory.brk + 4094) / 4096 * 4096 ≡ n * 4096 = omega arith in f))
    ∙ ap (λ o. o >>= λ w1. done (with_brk w1 new_brk))
        (round_eq fa vendor (new_brk / 4096) w (n * 4096) ((n + 1) * 4096) n new_brk (ground arith)
            (ground arith) (ground arith)
          ∙ ap (λ o. o >>= λ w1. brk_loop fa vendor (new_brk / 4096) w1 ((n + 1) * 4096) new_brk)
              (map_new_panics fa vendor w n co (omega arith) present))
