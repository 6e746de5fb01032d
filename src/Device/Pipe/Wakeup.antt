-- ===== src/Device/Pipe/Wakeup.antt =====
-- Who wakes whom: the condition variables of a pipe, src/device/pipe.rs.
use ark_rust_kernel.Prelude.{
  ℕ, suc, ◌+◌, ◌^◌, ◌<◌, ◌≡◌, ◌≢◌, List, [], ◌∷◌, none, some, false, arith, length, contains, drop,
  set, add_usize, ◌%◌, if◌then◌else◌,
}
use ark_rust_kernel.Process.Status.{ProcessStatus, suspend, StatusTable}
use ark_rust_kernel.Process.Condvar.{wake_all_lem, woken}
use ark_rust_kernel.Device.Pipe.Defs.{PipeBuffer, pipe_size, read, write, read_loop, write_loop}
use ark_rust_kernel.Device.Pipe.File.{Shared, reader, writer, read_turn, write_turn, close}
use ark_rust_kernel.Device.Pipe.Ring.{IsValid, write_loop_lem, count-write_loop}

-- A write of at least one byte makes every process ready that waits on `wait_read` and is alive,
-- changes no other process, and empties the list.
pub write_wakes_wait_read :
    (b : PipeBuffer) (c : ℕ) (cs : List ℕ) (t : StatusTable) (q : ℕ)
    → IsValid b
    → b.n_write + suc (length cs) < 2 ^ 64
    → ((write b (c ∷ cs) t).procs q
        ≡ (if contains b.wait_read.waiting_list q then woken (t q) else t q))
      × ((write b (c ∷ cs) t).buffer.wait_read.waiting_list ≡ [])
unfolding write
write_wakes_wait_read b c cs t q v h = (
  ground (
    arith,
    count-write_loop b (c ∷ cs) v.ordered h,
    write_loop_lem b (c ∷ cs) v.ordered h,
    wake_all_lem b.wait_read.waiting_list t q,
  ),
  ground (arith, count-write_loop b (c ∷ cs) v.ordered h),
)

-- What a writer does: a turn of `write`, or `close`.
pub data WriterStep (w : ℕ) : Shared → Shared → Type 0 where
  writes :
      (s : Shared) (buf : List ℕ) (total : ℕ)
      → WriterStep w s (write_turn writer w s buf total).shared
  closes : (s : Shared) → WriterStep w s (close writer s)

pub data WriterRun (w : ℕ) (s : Shared) : Shared → Type 0 where
  here : WriterRun w s s
  next : {t u : Shared} → WriterRun w s t → WriterStep w t u → WriterRun w s u

-- The process `r` is suspended, and not where a writer looks for processes to wake.
record IsStuck (r : ℕ) (s : Shared) : Type 0 where
  asleep : s.procs r ≡ some suspend
  unseen : contains s.buffer.wait_read.waiting_list r ≡ false

wait_read-write_loop : (b : PipeBuffer) (cs : List ℕ) → (write_loop b cs).0.wait_read ≡ b.wait_read
unfolding write_loop
wait_read-write_loop b [] = ground arith
wait_read-write_loop b (c ∷ cs) = ground (
  arith,
  wait_read-write_loop
      (record b { bytes = set b.bytes (b.n_write % pipe_size) c; n_write = add_usize b.n_write 1 })
      cs,
)

wait_read-read_loop : (b : PipeBuffer) (buf : List ℕ) → (read_loop b buf).0.wait_read ≡ b.wait_read
unfolding read_loop
wait_read-read_loop b [] = ground arith
wait_read-read_loop b (old ∷ rest) =
    ground (arith, wait_read-read_loop (record b { n_read = add_usize b.n_read 1 }) rest)

write_turn-IsStuck :
    {r w : ℕ} (s : Shared) (buf : List ℕ) (total : ℕ)
    → w ≢ r
    → IsStuck r s
    → IsStuck r (write_turn writer w s buf total).shared
unfolding write_turn write
write_turn-IsStuck {r} {w} s buf total ne st = ground (
  arith,
  wait_read-write_loop s.buffer (drop total buf),
  wake_all_lem s.buffer.wait_read.waiting_list s.procs r,
)

close-IsStuck : {r : ℕ} (s : Shared) → IsStuck r s → IsStuck r (close writer s)
unfolding close
close-IsStuck {r} s st = ground (arith, wake_all_lem s.buffer.wait_read.waiting_list s.procs r)

WriterStep-IsStuck : {r w : ℕ} {s t : Shared} → w ≢ r → WriterStep w s t → IsStuck r s → IsStuck r t
WriterStep-IsStuck ne (writes s buf total) st = write_turn-IsStuck s buf total ne st
WriterStep-IsStuck ne (closes s) st = close-IsStuck s st

WriterRun-IsStuck : {r w : ℕ} {s t : Shared} → w ≢ r → IsStuck r s → WriterRun w s t → IsStuck r t
WriterRun-IsStuck ne st here = st
WriterRun-IsStuck ne st (next run step) = WriterStep-IsStuck ne step (WriterRun-IsStuck ne st run)

blocked-IsStuck :
    (r : ℕ) (s : Shared) (buf : List ℕ) (p : ProcessStatus)
    → s.procs r ≡ some p
    → contains s.buffer.wait_read.waiting_list r ≡ false
    → (read_turn reader r s buf).next ≡ none
    → IsStuck r (read_turn reader r s buf).shared
unfolding read_turn read
blocked-IsStuck r s buf p alive unseen blocked = ground (arith, wait_read-read_loop s.buffer buf)

-- A reader that finds the pipe empty waits on `wait_write`, which no writer wakes: whatever another
-- process then writes, and if it closes its end, the reader stays suspended.
pub writer_never_wakes_reader :
    (r w : ℕ) (s : Shared) (buf : List ℕ) (p : ProcessStatus) {t : Shared}
    → w ≢ r
    → s.procs r ≡ some p
    → contains s.buffer.wait_read.waiting_list r ≡ false
    → (read_turn reader r s buf).next ≡ none
    → WriterRun w (read_turn reader r s buf).shared t
    → t.procs r ≡ some suspend
writer_never_wakes_reader r w s buf p ne alive unseen blocked run =
    (WriterRun-IsStuck ne (blocked-IsStuck r s buf p alive unseen blocked) run).asleep
