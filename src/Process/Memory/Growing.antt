-- ===== src/Process/Memory/Growing.antt =====
-- The loop of `set_brk` of src/process/process_memory.rs ends where its pages are not mapped and there
-- are frames for them.
use ark_rust_kernel.Prelude.{
  ℕ, zero, suc, ◌+◌, ◌*◌, ◌^◌, ◌≤◌, ◌<◌, ◌≡◌, ◌∙◌, ap, refl, sym, arith, false, none, ltb, ◌==◌,
  done, ◌>>=◌, Bool-cases, inl, inr,
}
use mathlib.Core.Path.{subst}
use ark_rust_kernel.Prelude.Maps.{get, insert, get-insert}
use ark_rust_kernel.Memory.Address.{VirtAddr, addr_of_page}
use ark_rust_kernel.Memory.Frames.{FrameAllocator, phy_page_alloc}
use ark_rust_kernel.Memory.Entry.{VendorId}
use ark_rust_kernel.Memory.Paging.Walk.{index_0}
use ark_rust_kernel.Memory.Paging.Translate.{translate_in}
use ark_rust_kernel.Memory.Paging.Total.{map_total}
use ark_rust_kernel.Memory.Paging.Enough.{HasFrames, next_frame, two_frames, map_leaves}
use ark_rust_kernel.Process.Memory.{World, grown, map, map_new, brk_loop, user_flags}
use ark_rust_kernel.Process.Memory.Coherent.{only_kernel, IsCoherent, user_index}
use ark_rust_kernel.Process.Memory.Brk.{allocated, allocated-IsCoherent, round_eq, map_new_refines}

module _ (fa : FrameAllocator) (vendor : VendorId) where
  map_ends :
      (w : World fa.State) (n vpn page flags : ℕ)
      → IsCoherent fa w
      → vpn < 2 ^ 19
      → get w.memory.maps vpn ≡ none
      → HasFrames fa (suc (suc n)) w.machine.frames
      → (w' : World fa.State) × (map fa vendor w vpn page flags ≡ done w')
        × HasFrames fa n w'.machine.frames
  unfolding map
  map_ends w n vpn page flags co user unmapped f =
      let at : vpn * 4096 + 0 ≡ addr_of_page vpn = omega arith in
      let nothing : translate_in (grown w) (addr_of_page vpn) ≡ none =
        ap (translate_in (grown w)) (sym at)
        ∙ co.agrees vpn 0 user (omega arith)
        ∙ ground (arith, unmapped) in
      let free : only_kernel (index_0 (addr_of_page vpn)) ≡ false =
        ground (arith, user_index vpn 0 user (omega arith)) in
      let (g, e) =
        map_total fa vendor only_kernel co.owner (grown w) (addr_of_page vpn) (addr_of_page page)
          flags co.tree free (omega arith) nothing (two_frames fa f) in
      (
        record {
          machine = g.machine;
          memory = record (w.memory) {
            page_table = g.table;
            maps = insert w.memory.maps vpn (record { page = page; flags = flags });
          };
        },
        rw (e, unmapped) refl,
        map_leaves fa vendor n (grown w) g (addr_of_page vpn) (addr_of_page page) flags f e,
      )

  map_new_ends :
      (w : World fa.State) (n vpn flags : ℕ)
      → IsCoherent fa w
      → vpn < 2 ^ 19
      → get w.memory.maps vpn ≡ none
      → HasFrames fa (suc (suc (suc n))) w.machine.frames
      → (w' : World fa.State) × (map_new fa vendor w vpn flags ≡ done w')
        × HasFrames fa n w'.machine.frames
  unfolding map_new phy_page_alloc allocated
  map_new_ends w n vpn flags co user unmapped f =
      let (page, s, e, left) = next_frame fa f in
      let (w', mapped, rest) =
        map_ends (allocated fa w page s) n vpn page flags (allocated-IsCoherent fa w page s e co)
          user unmapped left in
      (w', rw (e) mapped, rest)

  -- `c` pages are left to map.
  pub brk_loop_ends :
      (fuel c n : ℕ) (w : World fa.State) (new_brk : VirtAddr)
      → IsCoherent fa w
      → new_brk < 2 ^ 31
      → new_brk ≤ (n + c) * 4096
      → ((q : ℕ) → n ≤ q → q * 4096 < new_brk → get w.memory.maps q ≡ none)
      → HasFrames fa (c * 3) w.machine.frames
      → (w' : World fa.State) × (brk_loop fa vendor fuel w (n * 4096) new_brk ≡ done w')
  unfolding brk_loop
  brk_loop_ends zero c n w new_brk co small reach unmapped f = (w, refl)
  brk_loop_ends (suc fuel) zero n w new_brk co small reach unmapped f = (w, ground arith)
  brk_loop_ends (suc fuel) (suc c) n w new_brk co small reach unmapped f =
      elim (Bool-cases (ltb (n * 4096) new_brk)) [
        | inr stop ↦ (w, ground arith)
        | inl more ↦
            let triple : suc c * 3 ≡ suc (suc (suc (c * 3))) = omega arith in
            let (w1, mapped, left) =
              map_new_ends w (c * 3) n user_flags co (ground arith)
                (unmapped n (omega arith) (ground arith))
                (subst (λ k. HasFrames fa k w.machine.frames) triple f) in
            let (page, co1, inserted) =
              map_new_refines fa vendor w w1 n user_flags co (ground arith) (omega arith) mapped in
            let (w', later) =
              brk_loop_ends fuel c (n + 1) w1 new_brk co1 small (omega arith)
                (λ q above below.
                  let apart : (q == n) ≡ false = ground arith in
                  let before = unmapped q (omega arith) below in
                  ground (
                    arith,
                    inserted,
                    before,
                    get-insert w.memory.maps n q (record { page = page; flags = user_flags }),
                  ))
                left in
            (
              w',
              round_eq fa vendor fuel w (n * 4096) ((n + 1) * 4096) n new_brk (ground arith)
                    (ground arith) (ground arith)
                  ∙ ap (λ o. o >>= λ x. brk_loop fa vendor fuel x ((n + 1) * 4096) new_brk) mapped
                  ∙ later,
            )
      ]
