-- ===== src/Device/Pipe/Fifo.antt =====
-- `PipeBuffer::read` and `PipeBuffer::write` of src/device/pipe.rs against a queue of bytes.
use ark_rust_kernel.Prelude.{
  ℕ, zero, suc, ◌+◌, ◌-◌, ◌^◌, ◌≤◌, ◌<◌, ◌≡◌, refl, List, [], ◌++◌, Option, none, some, arith, min,
  length, take, drop, ◌==◌, if◌then◌else◌,
}
use ark_rust_kernel.Process.Status.{StatusTable}
use ark_rust_kernel.Device.Pipe.Defs.{PipeBuffer, read, write}
use ark_rust_kernel.Device.Pipe.Ring.{
  window, unread, contents, IsValid, read_loop_lem, count-write_loop, write_loop_lem,
  length-put_bytes, window-put_bytes,
}

drop-window :
    (bs : List ℕ) (s d k : ℕ) → window bs (s + min k d) (d - min k d) ≡ drop k (window bs s d)
drop-window bs s d zero = ground arith
drop-window bs s zero (suc k) = ground arith
drop-window bs s (suc d) (suc k) = ground (arith, drop-window bs (s + 1) d k)

-- What a `read` reports.
abbrev pub read_result : PipeBuffer → ℕ → Option ℕ
read_result b len =
    if unread b == 0 then (if b.write_open then some 0 else none) else some (min len (unread b))

take-nil : (n : ℕ) → take {A = ℕ} n [] ≡ []
take-nil zero = refl
take-nil (suc n) = refl

pub drop-nil : (n : ℕ) → drop {A = ℕ} n [] ≡ []
drop-nil zero = refl
drop-nil (suc n) = refl

pub read_of_unread :
    (b : PipeBuffer) (buf : List ℕ) (t : StatusTable) (d : ℕ)
    → b.n_write ≡ b.n_read + d
    → b.n_write < 2 ^ 64
    → d ≡ unread b
    → ((read b buf t).out ≡ take (length buf) (window b.bytes b.n_read d) ++ drop d buf)
      × (contents (read b buf t).buffer ≡ drop (length buf) (window b.bytes b.n_read d))
      × ((read b buf t).result ≡ read_result b (length buf))
unfolding read
read_of_unread b buf t zero e h k =
    (ground (arith, take-nil (length buf)), ground (arith, drop-nil (length buf)), ground arith)
read_of_unread b buf t (suc d) e h k = (
  ground (arith, read_loop_lem b buf (suc d) e h),
  ground
      (arith, read_loop_lem b buf (suc d) e h, drop-window b.bytes b.n_read (suc d) (length buf)),
  ground (arith, read_loop_lem b buf (suc d) e h),
)

-- A read hands over the oldest unread bytes, as many as there are and as fit into `buf`, leaves the
-- rest of `buf` as it was, and keeps the bytes not handed over in order. It reports their number;
-- an empty pipe is reported as 0 while a writer has it open, and as `None` otherwise.
pub read_takes_oldest :
    (b : PipeBuffer) (buf : List ℕ) (t : StatusTable)
    → IsValid b
    → ((read b buf t).out ≡ take (length buf) (contents b) ++ drop (unread b) buf)
      × (contents (read b buf t).buffer ≡ drop (length buf) (contents b))
      × ((read b buf t).result ≡ read_result b (length buf))
unfolding read
read_takes_oldest b buf t v = read_of_unread b buf t (unread b) (omega arith) v.fits refl

-- A read keeps the buffer valid.
pub read-IsValid :
    (b : PipeBuffer) (buf : List ℕ) (t : StatusTable) → IsValid b → IsValid (read b buf t).buffer
unfolding read
read-IsValid b buf t v = ground (arith, read_loop_lem b buf (unread b) (omega arith) v.fits)

-- A write keeps the buffer valid, as long as its counter does not wrap.
pub write-IsValid :
    (b : PipeBuffer) (cs : List ℕ) (t : StatusTable)
    → IsValid b
    → b.n_write + length cs < 2 ^ 64
    → IsValid (write b cs t).buffer
unfolding write
write-IsValid b cs t v h =
    ground (arith, write_loop_lem b cs v.ordered h, length-put_bytes b.bytes b.n_write cs)

-- A write of bytes that fit beside the unread ones puts them at the end of the queue, and reports
-- their number, or `None` if no reader has the pipe open.
pub write_appends :
    (b : PipeBuffer) (cs : List ℕ) (t : StatusTable)
    → IsValid b
    → b.n_write + length cs < 2 ^ 64
    → unread b + length cs ≤ 512
    → (contents (write b cs t).buffer ≡ contents b ++ cs)
      × ((write b cs t).result ≡ (if b.read_open then some (length cs) else none))
unfolding write
write_appends b cs t v h k = (
  ground (
    arith,
    write_loop_lem b cs v.ordered h,
    window-put_bytes b.bytes b.n_read (unread b) b.n_write (b.n_write + length cs - b.n_read) cs
        v.sized (omega arith) (omega arith) (omega arith),
  ),
  ground (arith, count-write_loop b cs v.ordered h, write_loop_lem b cs v.ordered h),
)
