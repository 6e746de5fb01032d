-- ===== src/Cpu/Trap/Nesting.antt =====
-- Nested critical sections of src/cpu/mod.rs: code that pushes and pops in pairs.
use ark_rust_kernel.Prelude.{
  ℕ, suc, ◌+◌, ◌-◌, ◌^◌, ◌<◌, ◌≡◌, refl, ◌∙◌, arith, Bool, true, false, ◌&&◌, ◌||◌, not, ◌==◌,
  if◌then◌else◌, Outcome, done, ◌>>=◌, max,
}
use ark_rust_kernel.Cpu.Trap.{Cpu, push_interrupt, pop_interrupt}

-- Code that takes and releases guards: nothing, or a section around inner code, and then more.
pub data Code : Type 0 where
  idle : Code
  section : Code → Code → Code

-- Its run: each section pushes, runs what is inside, and pops.
unfoldable pub run : Code → Cpu → Outcome Cpu
run idle c = done c
run (section inner rest) c = do
  c' ← run inner (push_interrupt c)
  c'' ← pop_interrupt c'
  run rest c''

-- How deep the sections nest.
abbrev pub nesting : Code → ℕ
nesting idle = 0
nesting (section inner rest) = max (suc (nesting inner)) (nesting rest)

-- Inside a section interrupts are off.
abbrev pub is_consistent : Cpu → Bool
is_consistent c = c.depth == 0 || not c.sie

-- What stays the same over code that pushes and pops in pairs.
pub record Restored (c d : Cpu) : Type 0 where
  pub sie : d.sie ≡ c.sie
  pub depth : d.depth ≡ c.depth
  pub enabled : (c.depth == 0) ≡ false → d.enabled ≡ c.enabled

Restored-trans : (c d e : Cpu) → Restored c d → Restored d e → Restored c e
Restored-trans c d e r s = record {
  sie = s.sie ∙ r.sie;
  depth = s.depth ∙ r.depth;
  enabled = λ n. s.enabled (ground (arith, r.depth)) ∙ r.enabled n;
}

pub pop_after :
    (c d : Cpu)
    → is_consistent c ≡ true
    → c.depth + 1 < 2 ^ 64
    → Restored (push_interrupt c) d
    → (e : Cpu) × (pop_interrupt d ≡ done e) × Restored c e
unfolding push_interrupt pop_interrupt
pop_after c d v h r =
    let off : d.sie ≡ false = r.sie in
    let deep : d.depth ≡ c.depth + 1 = ground (arith, r.depth) in
    let kept : d.enabled ≡ (if c.depth == 0 then c.sie else c.enabled) = r.enabled (ground arith) in
    (
      record d { sie = if d.depth - 1 == 0 && d.enabled then true else d.sie; depth = d.depth - 1 },
      ground arith,
      record { sie = ground arith; depth = ground arith; enabled = λ n. ground arith },
    )

pushed : (c : Cpu) → is_consistent (push_interrupt c) ≡ true
unfolding push_interrupt
pushed c = ground arith

deeper : (c : Cpu) (k : ℕ) → c.depth + suc k < 2 ^ 64 → (push_interrupt c).depth + k < 2 ^ 64
unfolding push_interrupt
deeper c k h = omega arith

-- Sections never panic, however they nest, and leave the interrupt bit and the depth as they were:
-- the outermost section puts interrupts back on exactly if they were on before it.
pub sections_restore :
    (code : Code) (c : Cpu)
    → is_consistent c ≡ true
    → c.depth + nesting code < 2 ^ 64
    → (d : Cpu) × (run code c ≡ done d) × Restored c d
unfolding run
sections_restore idle c v h = (c, refl, record { sie = refl; depth = refl; enabled = λ n. refl })
sections_restore (section inner rest) c v h =
    let (c1, ran, r1) =
      sections_restore inner (push_interrupt c) (pushed c)
        (deeper c (nesting inner) (omega arith)) in
    let (c2, popped, r2) = pop_after c c1 v (omega arith) r1 in
    let (c3, last, r3) =
      sections_restore rest c2 (ground (arith, r2.sie, r2.depth)) (omega (arith, r2.depth)) in
    (c3, rw (ran, popped) last, Restored-trans c c2 c3 r2 r3)
