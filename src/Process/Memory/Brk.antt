-- ===== src/Process/Memory/Brk.antt =====
-- `set_brk` of src/process/process_memory.rs.
use ark_rust_kernel.Prelude.{
  ℕ, zero, suc, ◌+◌, ◌*◌, ◌^◌, ◌≤◌, ◌<◌, ◌≡◌, ◌∙◌, ap, refl, sym, arith, Bool, true, false, Option,
  none, some, ltb, ◌==◌, done, ◌>>=◌, >>=-eq-done, Option-cases, Bool-cases, inl, inr, pos,
}
use mathlib.Core.Path.{subst}
use mathlib.Core.Option
use ark_rust_kernel.Prelude.Maps.{Map, insert, get, get-insert, contains_key}
use ark_rust_kernel.Memory.Address.{VirtAddr, page_of_addr, page_size, to_offset}
use ark_rust_kernel.Memory.Frames.{FrameAllocator, zero_page, phy_page_alloc}
use ark_rust_kernel.Memory.Entry.{VendorId, entry_page_id}
use ark_rust_kernel.Memory.Paging.{Cells}
use ark_rust_kernel.Memory.Paging.Walk.{index_0, index_1, index_2}
use ark_rust_kernel.Memory.Paging.Tree.{Node, top, mid, low, Links, lookup}
use ark_rust_kernel.Memory.Paging.Translate.{translate_in, translate-entry_at, target}
use ark_rust_kernel.Process.Memory.{UserPage, World, grown, map_new, brk_loop, user_flags}
use ark_rust_kernel.Process.Memory.Coherent.{only_kernel, IsCoherent, user_index, map_refines}

-- A page that is no table is not seen by a walk.
lookup-zero_page :
    (big : ℕ → Bool) (owner : ℕ → Option Node) (c : Cells) (root a b d page : ℕ)
    → Links big owner c
    → owner root ≡ some top
    → big a ≡ false
    → owner page ≡ none
    → lookup (zero_page c page) root a b d ≡ lookup c root a b d
lookup-zero_page big owner c root a b d page links r free unowned =
    ground (arith, links root a top (mid a) r, links (entry_page_id (c root a)) b (mid a) (low a b))

-- The pages from `real_brk` as far as `new_brk` reaches are mapped; no other page changes.
pub record Reaches (maps maps' : Map UserPage) (real_brk new_brk : VirtAddr) : Type 0 where
  pub mapped : (q : ℕ) → real_brk ≤ q * 4096 → q * 4096 < new_brk → contains_key maps' q ≡ true
  pub kept : (q : ℕ) → q * 4096 < real_brk → get maps' q ≡ get maps q
  pub beyond : (q : ℕ) → new_brk ≤ q * 4096 → get maps' q ≡ get maps q

module _ (fa : FrameAllocator) where
  -- The state when a page has been allocated.
  unfoldable pub allocated : World fa.State → ℕ → fa.State → World fa.State
  allocated w page s = record w {
    machine = record { cells = zero_page w.machine.cells page; frames = s };
  }

  module _ (w : World fa.State) (page : ℕ) (s : fa.State)
      (e : fa.alloc w.machine.frames 1 ≡ some (page, s)) (co : IsCoherent fa w) where
    pub page_fits : page < 2 ^ 44
    page_fits = omega (arith, fa.alloc_fits w.machine.frames 1 page 0 s e)

    pub unowned : co.owner page ≡ none
    unowned = elim (Option-cases (co.owner page)) [
      | inl free ↦ free
      | inr (n, owned) ↦ absurd (
          fa.alloc_fresh w.machine.frames 1 page 0 s e (omega arith) (
            subst (fa.Used w.machine.frames) (let same : page ≡ page + 0 = omega arith in same)
              (co.tree.used page n owned)))
    ]

    pub allocated-IsCoherent : IsCoherent fa (allocated w page s)
    unfolding allocated
    allocated-IsCoherent = record {
      owner = co.owner;
      tree = record {
        root = co.tree.root;
        used = λ p n h. fa.alloc_keeps w.machine.frames 1 page p s e (co.tree.used p n h);
        links = λ p i n k h u v.
            let apart : (p == page) ≡ false = ground (arith, unowned, h) in
            ground (arith, co.tree.links p i n k h u);
      };
      agrees = λ vpn offset u k.
          same_bytes (vpn * 4096 + offset) (user_index vpn offset u k) (omega arith)
          ∙ co.agrees vpn offset u k;
    }
      where
        same_bytes :
            (va : VirtAddr)
            → only_kernel (index_0 va) ≡ false
            → va < 2 ^ 64
            → translate_in (grown (allocated w page s)) va ≡ translate_in (grown w) va
        same_bytes va free fits =
            translate-entry_at (grown (allocated w page s)) va fits
            ∙ ap (Option.map (target va)) (
                lookup-zero_page only_kernel co.owner w.machine.cells w.memory.page_table.entries
                  (index_0 va) (index_1 va) (index_2 va) page co.tree.links co.tree.root free
                  unowned)
            ∙ sym (translate-entry_at (grown w) va fits)

module _ (fa : FrameAllocator) (vendor : VendorId) where
  map_new_from :
      (w w' : World fa.State) (vpn flags page : ℕ) (s : fa.State)
      → IsCoherent fa w
      → vpn < 2 ^ 19
      → flags < 2 ^ 8
      → map_new fa vendor w vpn flags ≡ done w'
      → fa.alloc w.machine.frames 1 ≡ some (page, s)
      → IsCoherent fa w'
        × (w'.memory.maps ≡ insert w.memory.maps vpn (record { page = page; flags = flags }))
  unfolding map_new phy_page_alloc allocated
  map_new_from w w' vpn flags page s co user bits e a =
      map_refines fa vendor (allocated fa w page s) vpn page flags user (page_fits fa w page s a co)
        bits (allocated-IsCoherent fa w page s a co) w' (ground (arith, a, e))

  -- A fresh page is mapped at `vpn`.
  pub map_new_refines :
      (w w' : World fa.State) (vpn flags : ℕ)
      → IsCoherent fa w
      → vpn < 2 ^ 19
      → flags < 2 ^ 8
      → map_new fa vendor w vpn flags ≡ done w'
      → (page : ℕ) × IsCoherent fa w'
        × (w'.memory.maps ≡ insert w.memory.maps vpn (record { page = page; flags = flags }))
  unfolding map_new phy_page_alloc
  map_new_refines w w' vpn flags co user bits e =
      elim (Option-cases (fa.alloc w.machine.frames 1)) [
        | inl full ↦ absurd (ground (arith, full, e))
        | inr ((page, s), a) ↦
            let (after, inserted) = map_new_from w w' vpn flags page s co user bits e a in
            (page, after, inserted)
      ]

  pub Reaches-stop : (maps : Map UserPage) (a b : VirtAddr) → b ≤ a → Reaches maps maps a b
  Reaches-stop maps a b h = record {
    mapped = λ q l m. absurd (omega arith);
    kept = λ q l. refl;
    beyond = λ q l. refl;
  }

  Reaches-step :
      (maps between maps' : Map UserPage) (n : ℕ) (u : UserPage) (new_brk : VirtAddr)
      → between ≡ insert maps n u
      → n * 4096 < new_brk
      → Reaches between maps' ((n + 1) * 4096) new_brk
      → Reaches maps maps' (n * 4096) new_brk
  Reaches-step maps between maps' n u new_brk e h r = record {
    mapped = λ q l m. elim (Bool-cases (q == n)) [
      | inl same ↦ ground (arith, r.kept q (ground arith), e, get-insert maps n q u)
      | inr other ↦ r.mapped q (ground arith) m
    ];
    kept = λ q l. r.kept q (omega arith) ∙ ground (arith, e, get-insert maps n q u);
    beyond = λ q l. r.beyond q l ∙ ground (arith, e, get-insert maps n q u);
  }

  pub round_eq :
      (fuel : ℕ) (w : World fa.State) (real_brk next pg new_brk : ℕ)
      → ltb real_brk new_brk ≡ true
      → page_of_addr (to_offset real_brk (pos 1)) ≡ pg
      → to_offset real_brk (pos page_size) ≡ next
      → brk_loop fa vendor (suc fuel) w real_brk new_brk
        ≡ (map_new fa vendor w pg user_flags >>= λ w1. brk_loop fa vendor fuel w1 next new_brk)
  unfolding brk_loop
  round_eq fuel w real_brk next pg new_brk more at onward = rw more (
      ap
        (λ p. map_new fa vendor w p user_flags >>= λ w1.
          brk_loop fa vendor fuel w1 (to_offset real_brk (pos page_size)) new_brk)
        at
      ∙ ap
          (λ next'.
            map_new fa vendor w pg user_flags >>= λ w1. brk_loop fa vendor fuel w1 next' new_brk)
          onward)

  -- A round that does not panic maps the page at `real_brk`.
  round-done :
      (fuel n : ℕ) (w w' : World fa.State) (new_brk : VirtAddr)
      → n * 4096 < new_brk
      → new_brk < 2 ^ 31
      → brk_loop fa vendor (suc fuel) w (n * 4096) new_brk ≡ done w'
      → (w1 : World fa.State) × (map_new fa vendor w n user_flags ≡ done w1)
        × (brk_loop fa vendor fuel w1 ((n + 1) * 4096) new_brk ≡ done w')
  round-done fuel n w w' new_brk h small e =
      >>=-eq-done (map_new fa vendor w n user_flags)
        (λ w1. brk_loop fa vendor fuel w1 ((n + 1) * 4096) new_brk)
        (sym (
            round_eq fuel w (n * 4096) ((n + 1) * 4096) n new_brk (ground arith) (ground arith)
              (ground arith))
          ∙ e)

  pub brk_loop-Reaches :
      (fuel n : ℕ) (w w' : World fa.State) (new_brk : VirtAddr)
      → IsCoherent fa w
      → new_brk < 2 ^ 31
      → new_brk ≤ (n + fuel) * 4096
      → brk_loop fa vendor fuel w (n * 4096) new_brk ≡ done w'
      → IsCoherent fa w' × Reaches w.memory.maps w'.memory.maps (n * 4096) new_brk
  unfolding brk_loop
  brk_loop-Reaches zero n w w' new_brk co h k e =
      let same : w ≡ w' = ground arith in
      (
        subst (IsCoherent fa) same co,
        subst (λ x. Reaches w.memory.maps x.memory.maps (n * 4096) new_brk) same
            (Reaches-stop w.memory.maps (n * 4096) new_brk (omega arith)),
      )
  brk_loop-Reaches (suc fuel) n w w' new_brk co h k e = elim (Bool-cases (ltb (n * 4096) new_brk)) [
    | inr stop ↦
        let same : w ≡ w' = ground arith in
        (
          subst (IsCoherent fa) same co,
          subst (λ x. Reaches w.memory.maps x.memory.maps (n * 4096) new_brk) same
              (Reaches-stop w.memory.maps (n * 4096) new_brk (ground arith)),
        )
    | inl more ↦
        let (w1, mapped, later) = round-done fuel n w w' new_brk (ground arith) h e in
        let (page, co1, inserted) =
          map_new_refines w w1 n user_flags co (ground arith) (omega arith) mapped in
        let (co', r) = brk_loop-Reaches fuel (n + 1) w1 w' new_brk co1 h (omega arith) later in
        (
          co',
          Reaches-step w.memory.maps w1.memory.maps w'.memory.maps n
              (record { page = page; flags = user_flags }) new_brk inserted (ground arith) r,
        )
  ]
