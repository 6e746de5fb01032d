-- ===== src/Device/Pipe/File.antt =====
-- `PipeFile` of src/device/pipe.rs. Both ends of a pipe share one buffer. `read` and `write` are
-- loops that may suspend the caller and yield; a turn of such a loop is one function here, and
-- what other processes do in between is a sequence of further turns.
use ark_rust_kernel.Prelude.{
  ℕ, ◌+◌, List, Option, none, some, true, false, ◌&&◌, String, length, drop, ◌==◌, not,
  if◌then◌else◌, Result, ok, err,
}
use ark_rust_kernel.Process.Status.{StatusTable}
use ark_rust_kernel.Process.Task.{yield_process}
use ark_rust_kernel.Process.Condvar.{wakeup, wait}
use ark_rust_kernel.Device.Pipe.Defs.{PipeBuffer, new_buffer, BufferRead, read, BufferWrite, write}

pub data PipeFileType : Type 0 where
  reader writer : PipeFileType

-- The buffer behind the two files, and the statuses of the processes.
pub record Shared : Type 0 where
  pub buffer : PipeBuffer
  pub procs : StatusTable

-- `PipeFile::create`: the buffer that its reader and its writer share.
unfoldable pub create : PipeBuffer
create = record new_buffer { write_open = true; read_open = true }

-- How a turn of the loop in `read` ends; `next` is `none` where the loop goes round again.
pub record ReadTurn : Type 0 where
  pub shared : Shared
  pub out : List ℕ
  pub next : Option (Result String ℕ)

-- The turn where nothing was read and a writer is left: wait, then yield.
reader_waits : ℕ → BufferRead → ReadTurn
reader_waits proc r =
    let (c, t) = wait proc r.buffer.wait_write r.procs in
    record {
      shared = record {
        buffer = record (r.buffer) { wait_write = c };
        procs = yield_process proc t;
      };
      out = r.out;
      next = none;
    }

read_returns : BufferRead → Result String ℕ → ReadTurn
read_returns r v = record {
  shared = record { buffer = r.buffer; procs = r.procs };
  out = r.out;
  next = some v;
}

reader_turn : ℕ → BufferRead → ReadTurn
unfolding reader_waits read_returns wait
reader_turn proc r = elim r.result [
  | some read_bytes ↦
      if read_bytes == 0 && r.buffer.write_open
      then reader_waits proc r
      else read_returns r (ok read_bytes)
  | none ↦ read_returns r (err "Read from a pipe no one could write.")
]

unfoldable pub read_turn : PipeFileType → ℕ → Shared → List ℕ → ReadTurn
unfolding reader_turn
read_turn reader proc s buf = reader_turn proc (read s.buffer buf s.procs)
read_turn writer proc s buf = record {
  shared = s;
  out = buf;
  next = some (err "Cannot read from writer.");
}

-- A turn of the loop in `write`: `total_wrote` is the variable that the loop carries round.
pub record WriteTurn : Type 0 where
  pub shared : Shared
  pub total_wrote : ℕ
  pub next : Option (Result String ℕ)

writer_waits : ℕ → BufferWrite → ℕ → WriteTurn
writer_waits proc r total =
    let (c, t) = wait proc r.buffer.wait_read r.procs in
    record {
      shared = record {
        buffer = record (r.buffer) { wait_read = c };
        procs = yield_process proc t;
      };
      total_wrote = total;
      next = none;
    }

write_returns : BufferWrite → ℕ → Result String ℕ → WriteTurn
write_returns r total v = record {
  shared = record { buffer = r.buffer; procs = r.procs };
  total_wrote = total;
  next = some v;
}

writer_turn : ℕ → BufferWrite → ℕ → ℕ → WriteTurn
unfolding writer_waits write_returns wait
writer_turn proc r len total = elim r.result [
  | some wrote_bytes ↦
      if not (total + wrote_bytes == len)
      then writer_waits proc r (total + wrote_bytes)
      else write_returns r (total + wrote_bytes) (ok (total + wrote_bytes))
  | none ↦ write_returns r total (err "Write to a pipe no one could read.")
]

unfoldable pub write_turn : PipeFileType → ℕ → Shared → List ℕ → ℕ → WriteTurn
unfolding writer_turn
write_turn writer proc s buf total =
    writer_turn proc (write s.buffer (drop total buf) s.procs) (length buf) total
write_turn reader proc s buf total = record {
  shared = s;
  total_wrote = total;
  next = some (err "Cannot write by reader.");
}

unfoldable pub close : PipeFileType → Shared → Shared
unfolding wakeup
close reader s =
    let (c, t) = wakeup s.buffer.wait_write s.procs in
    record { buffer = record (s.buffer) { read_open = false; wait_write = c }; procs = t }
close writer s =
    let (c, t) = wakeup s.buffer.wait_read s.procs in
    record { buffer = record (s.buffer) { write_open = false; wait_read = c }; procs = t }
