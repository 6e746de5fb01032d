-- ===== src/Device/Pipe/Overrun.antt =====
-- What the test for a full buffer in `PipeBuffer::write` of src/device/pipe.rs does not do:
-- `(n_write + 1) == (n_read + PIPE_SIZE) % PIPE_SIZE` compares a position in the stream with one
-- in the array.
use ark_rust_kernel.Prelude.{
  ℕ, suc, ◌+◌, ◌%◌, set, ap, ◌∙◌, ◌^◌, ◌<◌, ◌≡◌, List, [], ◌∷◌, some, true, arith, length, get_or,
  get_or-set_self, ok,
}
use ark_rust_kernel.Process.Status.{StatusTable}
use ark_rust_kernel.Device.Pipe.Defs.{PipeBuffer, read, write}
use ark_rust_kernel.Device.Pipe.File.{Shared, writer, write_turn}
use ark_rust_kernel.Device.Pipe.Ring.{IsValid, unread, count-write_loop, write_loop_lem}
use ark_rust_kernel.Device.Pipe.Fifo.{read_of_unread, drop-nil}

-- A writer is never made to wait: however many bytes are unread, the first turn of `write` takes
-- the whole of `buf`, while a reader has the pipe open.
pub write_never_waits :
    (proc : ℕ) (s : Shared) (buf : List ℕ)
    → IsValid s.buffer
    → s.buffer.n_write + length buf < 2 ^ 64
    → s.buffer.read_open ≡ true
    → (write_turn writer proc s buf 0).next ≡ some (ok (length buf))
unfolding write_turn write
write_never_waits proc s buf v h o =
    ground
      (arith, count-write_loop s.buffer buf v.ordered h, write_loop_lem s.buffer buf v.ordered h)

next_byte :
    (b : PipeBuffer) (d x : ℕ) (u : StatusTable)
    → b.n_write ≡ b.n_read + suc d
    → b.n_write < 2 ^ 64
    → (read b (x ∷ []) u).out ≡ get_or b.bytes (b.n_read % 512) 0 ∷ []
next_byte b d x u e h =
    (read_of_unread b (x ∷ []) u (suc d) e h (omega arith)).0
    ∙ ap (λ l. get_or b.bytes (b.n_read % 512) 0 ∷ l) (drop-nil d)

write_one :
    (b : PipeBuffer) (c : ℕ) (t : StatusTable)
    → IsValid b
    → b.n_write + 1 < 2 ^ 64
    → ((write b (c ∷ []) t).buffer.bytes ≡ set b.bytes (b.n_write % 512) c)
      × ((write b (c ∷ []) t).buffer.n_read ≡ b.n_read)
      × ((write b (c ∷ []) t).buffer.n_write ≡ b.n_write + 1)
unfolding write
write_one b c t v h = ground (arith, write_loop_lem b (c ∷ []) v.ordered (omega arith))

-- So unread bytes are lost: a byte written to a full pipe takes the place of the oldest unread
-- one, and is what the next read hands over.
pub full_pipe_loses_oldest :
    (b : PipeBuffer) (c x : ℕ) (t u : StatusTable)
    → IsValid b
    → unread b ≡ 512
    → b.n_write + 1 < 2 ^ 64
    → (read (write b (c ∷ []) t).buffer (x ∷ []) u).out ≡ c ∷ []
full_pipe_loses_oldest b c x t u v full h =
    next_byte (write b (c ∷ []) t).buffer 512 x u (omega (arith, write_one b c t v h))
      (omega (arith, write_one b c t v h))
    ∙ ground
        (arith, write_one b c t v h, get_or-set_self b.bytes (b.n_write % 512) c 0 (omega arith))
