-- ===== src/Device/Pipe/Tests.antt =====
-- Runs of the pipe of src/device/pipe.rs, and its theorems at inputs that meet their hypotheses.
use ark_rust_kernel.Prelude.{◌≡◌, refl, [], ◌∷◌, none, some, true, arith, replicate, set}
use ark_rust_kernel.Process.Status.{running, suspend, StatusTable}
use ark_rust_kernel.Device.Pipe.Defs.{PipeBuffer, new_buffer, read, write}
use ark_rust_kernel.Device.Pipe.File.{Shared, create, reader, writer, read_turn, write_turn, close}
use ark_rust_kernel.Device.Pipe.Ring.{IsValid, contents}
use ark_rust_kernel.Device.Pipe.Fifo.{read_takes_oldest, write_appends}
use ark_rust_kernel.Device.Pipe.Overrun.{full_pipe_loses_oldest}
use ark_rust_kernel.Device.Pipe.Wakeup.{here, next, writes, closes, writer_never_wakes_reader}

abbrev both_run : StatusTable
both_run p = some running

abbrev opened : PipeBuffer
opened = record {
  bytes = replicate 512 0;
  n_read = 0;
  n_write = 0;
  read_open = true;
  write_open = true;
  wait_read = record { waiting_list = [] };
  wait_write = record { waiting_list = [] };
}

create_lem : create ≡ opened
unfolding create new_buffer
create_lem = refl

-- Three unread bytes, round the end of the array.
abbrev wrapped : PipeBuffer
wrapped = record opened {
  bytes = set (set (set (replicate 512 0) 510 7) 511 8) 0 9;
  n_read = 510;
  n_write = 513;
}

abbrev full : PipeBuffer
full = record opened { bytes = replicate 512 5; n_read = 1; n_write = 513 }

abbrev start : Shared
start = record { buffer = opened; procs = both_run }

read-wrapped : (read wrapped (0 ∷ 0 ∷ 0 ∷ 1 ∷ []) both_run).out ≡ 7 ∷ 8 ∷ 9 ∷ 1 ∷ []
unfolding read
read-wrapped = refl

blocked_turn : (read_turn reader 4 start (0 ∷ [])).next ≡ none
unfolding read_turn read
blocked_turn = refl

wrapped-IsValid : IsValid wrapped
wrapped-IsValid = record { sized = refl; ordered = omega arith; fits = omega arith }

full-IsValid : IsValid full
full-IsValid = record { sized = refl; ordered = omega arith; fits = omega arith }

read_takes_oldest_example :
    ((read wrapped (0 ∷ 0 ∷ []) both_run).out ≡ 7 ∷ 8 ∷ [])
    × (contents (read wrapped (0 ∷ 0 ∷ []) both_run).buffer ≡ 9 ∷ [])
    × ((read wrapped (0 ∷ 0 ∷ []) both_run).result ≡ some 2)
read_takes_oldest_example = read_takes_oldest wrapped (0 ∷ 0 ∷ []) both_run wrapped-IsValid

write_appends_example :
    (contents (write wrapped (1 ∷ 2 ∷ []) both_run).buffer ≡ 7 ∷ 8 ∷ 9 ∷ 1 ∷ 2 ∷ [])
    × ((write wrapped (1 ∷ 2 ∷ []) both_run).result ≡ some 2)
write_appends_example =
    write_appends wrapped (1 ∷ 2 ∷ []) both_run wrapped-IsValid (omega arith) (omega arith)

full_pipe_loses_oldest_example :
    (read (write full (6 ∷ []) both_run).buffer (0 ∷ []) both_run).out ≡ 6 ∷ []
full_pipe_loses_oldest_example =
    full_pipe_loses_oldest full 6 0 both_run both_run full-IsValid refl (omega arith)

writer_never_wakes_reader_example :
    (close writer
        (write_turn writer 5 (read_turn reader 4 start (0 ∷ [])).shared (1 ∷ []) 0).shared).procs
      4
    ≡ some suspend
writer_never_wakes_reader_example =
    writer_never_wakes_reader 4 5 start (0 ∷ []) running (omega arith) refl refl blocked_turn
      (next (next here (writes _ (1 ∷ []) 0)) (closes _))
