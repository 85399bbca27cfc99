-- ===== src/Recv/Queue.antt =====
-- The receive buffer as a queue of bytes: `pending` is the queue, and each operation acts on it
-- as an operation of queues.
use cplus_server_core_model.Prelude.{
  ◌≢◌, ℕ, ◌+◌, ◌-◌, ◌*◌, ◌≤◌, ◌<◌, ◌≡◌, ap, ◌⊎◌, true, false, List, [], ◌++◌, arith, length, drop,
  length-replicate, slice, overwrite, length-overwrite, slice-overwrite_self, drop-drop, drop-take,
  length-slice, leb, if◌then◌else◌, take-nil, slice-written,
}
use cplus_server_core_model.Recv.{
  Memcpy, RecvBuffer, make, free_size, data_size, clean, on_read, on_write, arrive, pending,
  IsValid,
}

make-IsValid : (n : ℕ) → IsValid (make n)
unfolding make
make-IsValid n = record {
  order = omega arith;
  within = omega arith;
  sized = length-replicate (n * 10) 0;
}

pub on_read-IsValid : (n : ℕ) (b : RecvBuffer) → IsValid b → IsValid (on_read n b).0
unfolding on_read
on_read-IsValid n b v = ground arith

pub on_write-IsValid : (n : ℕ) (b : RecvBuffer) → IsValid b → IsValid (on_write n b).0
unfolding on_write
on_write-IsValid n b v = ground arith

pub arrive-IsValid : (bs : List ℕ) (b : RecvBuffer) → IsValid b → IsValid (arrive bs b)
unfolding arrive
arrive-IsValid bs b v = ground (arith, length-overwrite b.buffer b.write_pos bs)

pub length-pending : (b : RecvBuffer) → IsValid b → length (pending b) ≡ data_size b
unfolding pending data_size
length-pending b v = length-slice b.read_pos (b.write_pos - b.read_pos) b.buffer (omega arith)

pub slice-later :
    (r w n : ℕ) (xs : List ℕ) → slice (r + n) (w - (r + n)) xs ≡ drop n (slice r (w - r) xs)
slice-later r w n xs =
    let e : w - (r + n) ≡ w - r - n = omega arith in
    rw (drop-take n (w - r) (drop r xs), drop-drop n r xs, e)

-- A successful OnRead of `n` bytes takes the `n` oldest bytes off the queue; it fails, and changes
-- nothing, exactly when fewer are there.
pub pending-on_read :
    (n : ℕ) (b : RecvBuffer)
    → ((n ≤ data_size b)
        × ((on_read n b).1 ≡ true)
        × (pending (on_read n b).0 ≡ drop n (pending b)))
      ⊎ ((data_size b < n) × (on_read n b ≡ (b, false)))
unfolding on_read pending data_size
pending-on_read n b = ground (arith, slice-later b.read_pos b.write_pos n b.buffer)

-- When bytes arrive that fit into the free space, OnWrite succeeds and puts them, in order, at
-- the end of the queue.
pub pending-on_write :
    (bs : List ℕ) (b : RecvBuffer)
    → IsValid b
    → length bs ≤ free_size b
    → ((on_write (length bs) (arrive bs b)).1 ≡ true)
      × (pending (on_write (length bs) (arrive bs b)).0 ≡ pending b ++ bs)
unfolding on_write arrive pending data_size free_size
pending-on_write bs b v h = ground (arith, slice-written b.buffer bs b.read_pos b.write_pos)

slice-moved :
    (xs : List ℕ) (r n : ℕ)
    → r + n ≤ length xs
    → slice 0 n (overwrite xs 0 (slice r n xs)) ≡ slice r n xs
slice-moved xs r n h =
    let e = length-slice r n xs h in
    rw e at (slice-overwrite_self xs 0 (slice r n xs) (omega arith))

copy-clean :
    (m : Memcpy) (b : RecvBuffer)
    → IsValid b
    → data_size b ≤ b.read_pos
    → m.copy b.buffer 0 b.read_pos (data_size b) ≡ overwrite b.buffer 0 (pending b)
unfolding data_size pending
copy-clean m b v far = m.copy_disjoint b.buffer 0 b.read_pos _ (omega arith) (omega arith)

-- Clean keeps the queue and makes all of the space outside it free, if the unread bytes are no
-- more than those already read, so that `memcpy` copies parts that do not overlap.
pub pending-clean :
    (m : Memcpy) (b : RecvBuffer)
    → IsValid b
    → data_size b ≤ b.read_pos
    → IsValid (clean m b)
      × (pending (clean m b) ≡ pending b)
      × (free_size (clean m b) ≡ b.capacity - data_size b)
unfolding clean pending data_size free_size
pending-clean m b v c = ground (
  arith,
  copy-clean m b v c,
  length-overwrite b.buffer 0 (pending b),
  slice-moved b.buffer b.read_pos (data_size b),
)

-- A `memcpy` that copies where the parts do not overlap, and empties the buffer elsewhere.
forgetful_copy : List ℕ → ℕ → ℕ → ℕ → List ℕ
forgetful_copy xs dst src n = if leb (dst + n) src then overwrite xs dst (slice src n xs) else []

forgetful : Memcpy
unfolding forgetful_copy
forgetful = record {
  copy = forgetful_copy;
  copy_disjoint = λ xs dst src n fits apart. ground arith;
}

forgetful_copy-loses :
    (b : RecvBuffer) → b.read_pos < data_size b → pending (clean forgetful b) ≡ []
unfolding clean pending data_size forgetful
forgetful_copy-loses b h = ground (arith, take-nil {A = ℕ} (data_size b))

-- The contract of `memcpy` does not cover the call of Clean where more bytes are unread than read:
-- for each such buffer some `memcpy` that meets the contract makes Clean lose the unread bytes.
pub clean_overlaps :
    (b : RecvBuffer)
    → IsValid b
    → b.read_pos < data_size b
    → (m : Memcpy) × (pending (clean m b) ≢ pending b)
clean_overlaps b v h = (
  forgetful,
  λ e.
      absurd (omega (arith, length-pending b v, ap length e, ap length (forgetful_copy-loses b h))),
)
