-- ===== src/Device/Pipe/Ring.antt =====
-- The bytes that a `PipeBuffer` holds unread, and what the two loops of src/device/pipe.rs do to
-- them.
use ark_rust_kernel.Prelude.{
  ℕ, zero, suc, ◌+◌, ◌-◌, ◌%◌, ◌^◌, ◌≤◌, ◌<◌, ◌≡◌, refl, sym, ap, ◌∙◌, List, [], ◌∷◌, ◌++◌, arith,
  length, get_or, set, take, drop, length-set, get_or-set_self, get_or-set_ne, add_usize, min,
}
use mathlib.Core.List.{append-nil, append_assoc}
use ark_rust_kernel.Device.Pipe.Defs.{PipeBuffer, pipe_size, read_loop, write_loop}

-- `n` bytes from position `s` of the stream on.
abbrev pub window : List ℕ → ℕ → ℕ → List ℕ
window bs s zero = []
window bs s (suc n) = get_or bs (s % 512) 0 ∷ window bs (s + 1) n

abbrev pub unread : PipeBuffer → ℕ
unread b = b.n_write - b.n_read

abbrev pub contents : PipeBuffer → List ℕ
contents b = window b.bytes b.n_read (unread b)

-- The buffer is an array of `PIPE_SIZE` bytes, and the reader is not ahead of the writer.
pub record IsValid (b : PipeBuffer) : Type 0 where
  pub sized : length b.bytes ≡ 512
  pub ordered : b.n_read ≤ b.n_write
  pub fits : b.n_write < 2 ^ 64

pub length-window : (bs : List ℕ) (s n : ℕ) → length (window bs s n) ≡ n
length-window bs s zero = refl
length-window bs s (suc n) = ap suc (length-window bs (s + 1) n)

-- A byte written past a window leaves it alone, unless it comes round to its start.
window-set_past :
    (bs : List ℕ) (s n j v : ℕ)
    → s + n ≤ j
    → j < s + 512
    → window (set bs (j % 512) v) s n ≡ window bs s n
window-set_past bs s zero j v h k = refl
window-set_past bs s (suc n) j v h k = rw (
  get_or-set_ne bs (j % 512) (s % 512) v 0 (omega arith),
  window-set_past bs (s + 1) n j v (omega arith) (omega arith),
)

-- `read_loop` moves bytes from the front of the unread ones to the front of `buf`.
pub read_loop_lem :
    (b : PipeBuffer) (buf : List ℕ) (d : ℕ)
    → b.n_write ≡ b.n_read + d
    → b.n_write < 2 ^ 64
    → read_loop b buf ≡ (
      record b { n_read = b.n_read + min (length buf) d },
      take (length buf) (window b.bytes b.n_read d) ++ drop d buf,
      min (length buf) d,
    )
unfolding read_loop
read_loop_lem b [] zero e h = ground arith
read_loop_lem b [] (suc d) e h = ground arith
read_loop_lem b (old ∷ rest) zero e h = ground arith
read_loop_lem b (old ∷ rest) (suc d) e h =
    ground (arith, read_loop_lem (record b { n_read = add_usize b.n_read 1 }) rest d)

-- `write_loop` takes every byte.
pub count-write_loop :
    (b : PipeBuffer) (cs : List ℕ)
    → b.n_read ≤ b.n_write
    → b.n_write + length cs < 2 ^ 64
    → (write_loop b cs).1 ≡ length cs
unfolding write_loop
count-write_loop b [] h k = refl
count-write_loop b (c ∷ cs) h k = ground (
  arith,
  count-write_loop
      (record b { bytes = set b.bytes (b.n_write % pipe_size) c; n_write = add_usize b.n_write 1 })
      cs,
)

-- What `write_loop` leaves of the array: the bytes go to successive positions, round the end.
abbrev pub put_bytes : List ℕ → ℕ → List ℕ → List ℕ
put_bytes bs s [] = bs
put_bytes bs s (c ∷ cs) = put_bytes (set bs (s % 512) c) (s + 1) cs

pub write_loop_lem :
    (b : PipeBuffer) (cs : List ℕ)
    → b.n_read ≤ b.n_write
    → b.n_write + length cs < 2 ^ 64
    → (write_loop b cs).0
      ≡ record b { bytes = put_bytes b.bytes b.n_write cs; n_write = b.n_write + length cs }
unfolding write_loop
write_loop_lem b [] h k = ground arith
write_loop_lem b (c ∷ cs) h k = ground (
  arith,
  write_loop_lem
      (record b { bytes = set b.bytes (b.n_write % pipe_size) c; n_write = add_usize b.n_write 1 })
      cs,
)

pub length-put_bytes : (bs : List ℕ) (s : ℕ) (cs : List ℕ) → length (put_bytes bs s cs) ≡ length bs
length-put_bytes bs s [] = refl
length-put_bytes bs s (c ∷ cs) =
    length-put_bytes (set bs (s % 512) c) (s + 1) cs ∙ length-set bs (s % 512) c

-- A byte written just past a window extends it.
window-set_snoc :
    (bs : List ℕ) (s n j c : ℕ)
    → length bs ≡ 512
    → n < 512
    → j ≡ s + n
    → window (set bs (j % 512) c) s (suc n) ≡ window bs s n ++ (c ∷ [])
window-set_snoc bs s zero j c e h k = ground (arith, get_or-set_self bs (j % 512) c 0 (omega arith))
window-set_snoc bs s (suc n) j c e h k = ground (
  arith,
  get_or-set_ne bs (j % 512) (s % 512) c 0 (omega arith),
  window-set_snoc bs (s + 1) n j c e (omega arith) (omega arith),
)

-- While they fit beside the `n` unread bytes, the new ones join the end of the queue.
pub window-put_bytes :
    (bs : List ℕ) (s n j m : ℕ) (cs : List ℕ)
    → length bs ≡ 512
    → m ≤ 512
    → j ≡ s + n
    → m ≡ n + length cs
    → window (put_bytes bs j cs) s m ≡ window bs s n ++ cs
window-put_bytes bs s n j m [] e h k l =
    ap (window bs s) (omega arith) ∙ sym (append-nil (window bs s n))
window-put_bytes bs s n j m (c ∷ cs) e h k l =
    window-put_bytes (set bs (j % 512) c) s (suc n) (j + 1) m cs (length-set bs _ c ∙ e) h
      (omega arith) (omega arith)
    ∙ ap (λ w. w ++ cs) (window-set_snoc bs s n j c e (omega arith) k)
    ∙ append_assoc (window bs s n) (c ∷ []) cs
