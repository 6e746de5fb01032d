-- ===== src/Memory/Paging/Enough.antt =====
-- How many frames `map` of src/memory/paging.rs takes from the allocator: two at most.
use mathlib.Core.Path.{subst}
use ark_rust_kernel.Prelude.{
  ℕ, zero, suc, ◌/◌, ◌≡◌, ◌∙◌, sym, ap, refl, [], ◌∷◌, Option, some, inl, inr, done, unwrap,
  >>=-eq-done,
}
use ark_rust_kernel.Memory.Address.{VirtAddr, page_of_addr}
use ark_rust_kernel.Memory.Address.Indexes.{get_pte_indexes_lem}
use ark_rust_kernel.Memory.Frames.{FrameAllocator}
use ark_rust_kernel.Memory.Entry.{VendorId, entry_page_id}
use ark_rust_kernel.Memory.Paging.{Place, Grown, ensure, create_loop, find_pte_create, set_pte, map}
use ark_rust_kernel.Memory.Paging.Walk.{index_0, index_1, index_2}
use ark_rust_kernel.Memory.Paging.Total.{TwoFrames, ensure_total}

module _ (fa : FrameAllocator) where
  -- So many frames can be had one after another.
  pub data HasFrames : ℕ → fa.State → Type 0 where
    enough : {s : fa.State} → HasFrames zero s
    one_more :
        {n page : ℕ} {s t : fa.State}
        → fa.alloc s 1 ≡ some (page, t)
        → HasFrames n t
        → HasFrames (suc n) s

  fewer : {n : ℕ} {s : fa.State} → HasFrames (suc n) s → HasFrames n s
  fewer (one_more e enough) = enough
  fewer (one_more e (one_more e' h)) = one_more e (fewer (one_more e' h))

  -- The next frame, and the state after it
  pub next_frame :
      {n : ℕ} {s : fa.State}
      → HasFrames (suc n) s
      → (page : ℕ) × (t : fa.State) × (fa.alloc s 1 ≡ some (page, t)) × HasFrames n t
  next_frame (one_more {page} {t} e h) = (page, t, e, h)

  pub two_frames : {n : ℕ} {s : fa.State} → HasFrames (suc (suc n)) s → TwoFrames fa s
  two_frames h =
      let (p, t, e, h') = next_frame h in
      let (q, u, e', _) = next_frame h' in
      record { first = p; then_state = t; first_is = e; second = q; last_state = u; second_is = e' }

  ensure_uses :
      (n : ℕ) (g : Grown fa.State) (p i : ℕ)
      → HasFrames (suc n) g.machine.frames
      → (h : Grown fa.State) × (ensure fa g p i ≡ done h) × HasFrames n h.machine.frames
  ensure_uses n g p i f =
      let (page, s, e, left) = next_frame f in
      let (h, made, frames) = ensure_total fa g p i page s e in
      (
        h,
        made,
        elim frames [
          | inl same ↦ subst (HasFrames n) (sym same) (fewer f)
          | inr taken ↦ subst (HasFrames n) (sym taken) left
        ],
      )

  create_uses :
      (n : ℕ) (g : Grown fa.State) (a b d : ℕ)
      → HasFrames (suc (suc n)) g.machine.frames
      → (r : Option Place × Grown fa.State) × (create_loop fa g g.table.entries 0 (a ∷ b ∷ d ∷ [])
          ≡ done r)
        × HasFrames n r.1.machine.frames
  unfolding create_loop
  create_uses n g a b d f =
      let (g1, e1, f1) = ensure_uses (suc n) g g.table.entries a f in
      let p1 = entry_page_id (g1.machine.cells g.table.entries a) in
      let (g2, e2, f2) = ensure_uses n g1 p1 b f1 in
      ((some (entry_page_id (g2.machine.cells p1 b), d), g2), rw (e1, e2) refl, f2)

  find_uses :
      (n : ℕ) (g : Grown fa.State) (va : VirtAddr)
      → HasFrames (suc (suc n)) g.machine.frames
      → (r : Option Place × Grown fa.State) × (find_pte_create fa g (page_of_addr va) ≡ done r)
        × HasFrames n r.1.machine.frames
  unfolding find_pte_create
  find_uses n g va f =
      let (r, e, left) = create_uses n g (index_0 va) (index_1 va) (index_2 va) f in
      (r, ap (create_loop fa g g.table.entries 0) (get_pte_indexes_lem (va / 4096)) ∙ e, left)

  -- A `map` that succeeds leaves all frames but two.
  pub map_leaves :
      (vendor : VendorId) (n : ℕ) (g h : Grown fa.State) (va pa flags : ℕ)
      → HasFrames (suc (suc n)) g.machine.frames
      → map fa vendor g va pa flags ≡ done h
      → HasFrames n h.machine.frames
  unfolding map
  map_leaves vendor n g h va pa flags f e =
      let (r, found, left) = find_uses n g va f in
      let (r', found', e1) = >>=-eq-done (find_pte_create fa g (page_of_addr va)) _ e in
      let (place, _, e2) = >>=-eq-done (unwrap r'.0) _ e1 in
      let (c, _, e3) = >>=-eq-done (set_pte vendor r'.1.machine.cells place pa va flags) _ e2 in
      let same : r.1.machine.frames ≡ h.machine.frames =
        (let one : r ≡ r' = cc in
          let last : record (r'.1) { machine = record (r'.1.machine) { cells = c } } ≡ h = cc in
          ap (λ (x : Option Place × Grown fa.State). x.1.machine.frames) one
          ∙ ap (λ (x : Grown fa.State). x.machine.frames) last) in
      subst (HasFrames n) same left
