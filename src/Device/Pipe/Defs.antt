-- ===== src/Device/Pipe/Defs.antt =====
-- `PipeBuffer` and `PipeFile` of src/device/pipe.rs. A call that changes the buffer also returns
-- the statuses of the processes, which it changes through the condition variables.
use ark_rust_kernel.Prelude.{
  ℕ, suc, ◌%◌, List, [], ◌∷◌, Option, none, some, Bool, false, get_or, set, replicate, add_usize,
  ◌==◌, if◌then◌else◌,
}
use ark_rust_kernel.Process.Status.{StatusTable}
use ark_rust_kernel.Process.Condvar.{Condvar, new, wakeup}

abbrev pub pipe_size : ℕ
pipe_size = 512

pub record PipeBuffer : Type 0 where
  pub bytes : List ℕ
  pub n_read : ℕ
  pub n_write : ℕ
  pub read_open : Bool
  pub write_open : Bool
  pub wait_read : Condvar
  pub wait_write : Condvar

unfoldable pub new_buffer : PipeBuffer
new_buffer = record {
  bytes = replicate 512 0;
  n_read = 0;
  n_write = 0;
  read_open = false;
  write_open = false;
  wait_read = new;
  wait_write = new;
}

-- The loop of `PipeBuffer::read` over the part of `buf` not yet filled; it returns the buffer,
-- that part after the loop, and how many bytes it has filled.
unfoldable pub read_loop : PipeBuffer → List ℕ → PipeBuffer × List ℕ × ℕ
read_loop b [] = (b, [], 0)
read_loop b (old ∷ rest) =
    let r = read_loop (record b { n_read = add_usize b.n_read 1 }) rest in
    if b.n_read == b.n_write
    then (b, old ∷ rest, 0)
    else (r.0, get_or b.bytes (b.n_read % pipe_size) 0 ∷ r.1, suc r.2)

-- What a `read` of the buffer leaves: `out` is the caller's `buf`.
pub record BufferRead : Type 0 where
  pub buffer : PipeBuffer
  pub out : List ℕ
  pub procs : StatusTable
  pub result : Option ℕ

-- The end of the branch that reads: writers are woken if a byte was taken.
after_read : PipeBuffer × List ℕ × ℕ → StatusTable → BufferRead
after_read (b, out, i) t =
    let (c, t') = wakeup b.wait_write t in
    if i == 0
    then record { buffer = b; out = out; procs = t; result = some i }
    else record { buffer = record b { wait_write = c }; out = out; procs = t'; result = some i }

unfoldable pub read : PipeBuffer → List ℕ → StatusTable → BufferRead
unfolding after_read read_loop wakeup
read b buf t =
    if b.n_read == b.n_write
    then record { buffer = b; out = buf; procs = t; result = if b.write_open then some 0 else none }
    else after_read (read_loop b buf) t

-- The loop of `PipeBuffer::write`, with the number of bytes written.
unfoldable pub write_loop : PipeBuffer → List ℕ → PipeBuffer × ℕ
write_loop b [] = (b, 0)
write_loop b (c ∷ cs) =
    let r =
      write_loop
        (record b {
          bytes = set b.bytes (b.n_write % pipe_size) c;
          n_write = add_usize b.n_write 1;
        })
        cs in
    if add_usize b.n_write 1 == add_usize b.n_read pipe_size % pipe_size
    then (b, 0)
    else (r.0, suc r.1)

pub record BufferWrite : Type 0 where
  pub buffer : PipeBuffer
  pub procs : StatusTable
  pub result : Option ℕ

after_write : PipeBuffer × ℕ → StatusTable → BufferWrite
after_write (b, wrote_bytes) t =
    let (c, t') = wakeup b.wait_read t in
    let result = if b.read_open then some wrote_bytes else none in
    if wrote_bytes == 0
    then record { buffer = b; procs = t; result = result }
    else record { buffer = record b { wait_read = c }; procs = t'; result = result }

unfoldable pub write : PipeBuffer → List ℕ → StatusTable → BufferWrite
unfolding after_write write_loop wakeup
write b buf t = after_write (write_loop b buf) t
