-- ===== src/Interrupt/Table.antt =====
-- The table of interrupt handlers of src/interrupt/mod.rs. A handler is a `fn()`, which is compared
-- by its address. An index out of range panics.
use ark_rust_kernel.Prelude.{
  ℕ, ◌≡◌, arith, List, [], ◌∷◌, Option, none, some, false, not, ◌==◌, if◌then◌else◌, String, Result,
  ok, err, Outcome, done, unwrap, ◌>>=◌, get_elem?, set, get_elem?-set_self, get_elem?-set_ne,
  get_elem?-defined, set-set, Bool-cases, replicate, inl, inr,
}

abbrev pub max_interrupt : ℕ
max_interrupt = 64

abbrev pub Table : Type 0
Table = List (Option ℕ)

abbrev pub new : Table
new = replicate max_interrupt none

unfoldable pub register_interrupt_handler :
    Table → ℕ → ℕ → Outcome (Result String (Unit {0}) × Table)
register_interrupt_handler table irq handler = do
  entry ← unwrap (get_elem? table irq)
  done (elim entry [
    | some _ ↦ (err "Already registered.", table)
    | none ↦ (ok tt, set table irq (some handler))
  ])

unfoldable pub unregister_interrupt_handler :
    Table → ℕ → ℕ → Outcome (Result String (Unit {0}) × Table)
unregister_interrupt_handler table irq handler = do
  entry ← unwrap (get_elem? table irq)
  done (elim entry [
    | some f ↦
        if f == handler then (ok tt, set table irq none) else (err "Not registered handler.", table)
    | none ↦ (err "No handler registered.", table)
  ])

unfoldable pub get_interrupt_handler : Table → ℕ → Outcome (Option ℕ)
get_interrupt_handler table irq = unwrap (get_elem? table irq)

-- What an interrupt makes the kernel do.
pub data Event : Type 0 where
  timer : Event
  call : ℕ → Event
  complete : ℕ → Event

-- The causes that `interrupt_handler` looks at; `supervisor_external` has the number that
-- `plic::claim` returns.
pub data Interrupt : Type 0 where
  supervisor_timer : Interrupt
  supervisor_external : ℕ → Interrupt
  other : Interrupt

unfoldable pub interrupt_handler : Table → Interrupt → Outcome (List Event)
unfolding get_interrupt_handler
interrupt_handler table supervisor_timer = done (timer ∷ [])
interrupt_handler table (supervisor_external irq) =
    let handled = do
      handler ← get_interrupt_handler table irq
      done (elim handler [ some func ↦ call func ∷ complete irq ∷ [] | none ↦ complete irq ∷ [] ])
    in if not (irq == 0) then handled else done []
interrupt_handler table other = done []

module _ (table : Table) (irq handler : ℕ) (empty : get_elem? table irq ≡ some none) where
  here : get_elem? (set table irq (some handler)) irq ≡ some (some handler)
  here = get_elem?-set_self table irq (some handler) (get_elem?-defined table irq none empty)

  found :
      (q : ℕ)
      → get_interrupt_handler (set table irq (some handler)) q
        ≡ (if q == irq then done (some handler) else get_interrupt_handler table q)
  unfolding get_interrupt_handler
  found q = elim (Bool-cases (q == irq)) [
    | inl same ↦ ground (arith, here)
    | inr differs ↦
        ground (arith, get_elem?-set_ne table {i = irq} {j = q} (some handler) (λ e. ground arith))
  ]

  called :
      (irq == 0) ≡ false
      → interrupt_handler (set table irq (some handler)) (supervisor_external irq)
        ≡ done (call handler ∷ complete irq ∷ [])
  unfolding interrupt_handler get_interrupt_handler
  called n = ground (arith, here)

  -- A handler that was registered is found, and called when its interrupt comes, which is then
  -- completed; no other entry changes.
  pub register_finds :
      (q : ℕ)
      → (t : Table) × (register_interrupt_handler table irq handler ≡ done (ok tt, t))
        × (get_interrupt_handler t q
            ≡ (if q == irq then done (some handler) else get_interrupt_handler table q))
        × ((irq == 0) ≡ false
            → interrupt_handler t (supervisor_external irq)
              ≡ done (call handler ∷ complete irq ∷ []))
  unfolding register_interrupt_handler
  register_finds q = (set table irq (some handler), ground (arith, empty), found q, called)

  -- To register and to unregister a handler leaves the table as it was.
  pub unregister-register :
      (t : Table) × (register_interrupt_handler table irq handler ≡ done (ok tt, t))
      × (unregister_interrupt_handler t irq handler ≡ done (ok tt, table))
  unfolding register_interrupt_handler unregister_interrupt_handler
  unregister-register = (
    set table irq (some handler),
    ground (arith, empty),
    ground (arith, here, set-set table irq (some handler) none empty),
  )
