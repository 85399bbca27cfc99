-- ===== src/Recv/Tests.antt =====
-- Receive buffers of RecvBuffer.{h,cpp} of 6 bytes, and a `memcpy`.
use cplus_server_core_model.Recv.{
  on_write, on_read, arrive, clean, Memcpy, RecvBuffer, IsValid, pending, data_size, free_size,
  overwrite, ◌≡◌,
}
use cplus_server_core_model.Recv.Queue.{clean_overlaps}
use cplus_server_core_model.Recv.Refinement.{
  Call, Bounded, view, perform, perform_all, perform_all-serve_all,
}
use cplus_server_core_model.Prelude.{
  ◌≢◌, overwrite, ◌∷◌, arith, ◌≡◌, refl, slice, [], true, false, List, Bool,
}

-- A `memcpy` that first reads all, and then writes.
abbrev pub moving : Memcpy
moving = record {
  copy = λ xs dst src n. overwrite xs dst (slice src n xs);
  copy_disjoint = λ xs dst src n fits apart. refl;
}

-- One byte read, and three unread bytes behind it.
abbrev partly_read : RecvBuffer
partly_read = record {
  capacity = 6;
  buffer_size = 2;
  read_pos = 1;
  write_pos = 4;
  buffer = 9 ∷ 1 ∷ 2 ∷ 3 ∷ 0 ∷ 0 ∷ [];
}

partly_read-IsValid : IsValid partly_read
partly_read-IsValid = record { order = omega arith; within = omega arith; sized = refl }

pending-partly_read : pending partly_read ≡ 1 ∷ 2 ∷ 3 ∷ []
unfolding pending data_size
pending-partly_read = refl

-- Two bytes fit, two more do not, and fit after three were read and Clean was called.
abbrev calls : List Call
calls =
    Call.arrives (7 ∷ 8 ∷ [])
    ∷ Call.arrives (5 ∷ 6 ∷ [])
    ∷ Call.reads 3
    ∷ Call.reads 9
    ∷ Call.cleans
    ∷ Call.arrives (5 ∷ 6 ∷ [])
    ∷ []

perform_all-serve_all_example :
    ◌≡◌ {A = Bounded × List Bool}
      (view (perform_all moving calls partly_read).0, (perform_all moving calls partly_read).1)
      (
        record { bytes = 7 ∷ 8 ∷ 5 ∷ 6 ∷ []; room = 2 },
        true ∷ false ∷ true ∷ false ∷ true ∷ true ∷ [],
      )
unfolding pending data_size free_size perform on_write on_read arrive clean
perform_all-serve_all_example =
    perform_all-serve_all calls moving partly_read partly_read-IsValid
      (tt, (tt, (tt, (tt, (omega arith, (tt, tt))))))

clean_overlaps_example : (m : Memcpy) × (pending (clean m partly_read) ≢ pending partly_read)
unfolding data_size
clean_overlaps_example = clean_overlaps partly_read partly_read-IsValid (omega arith)
