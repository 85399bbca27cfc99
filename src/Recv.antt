-- ===== src/Recv.antt =====
-- ServerCore/RecvBuffer.{h,cpp}: the bytes that a session has received and not yet processed.
-- Sizes and positions are `int32` in the source; here they are numbers from 0 on, since
-- `Session::ProcessRecv` turns a negative length away before it calls `OnRead`.
pub mod Queue
pub mod Refinement
pub mod Tests
use cplus_server_core_model.Prelude.{
  ℕ, ◌+◌, ◌-◌, ◌*◌, ◌≤◌, ◌≡◌, Bool, true, false, List, length, replicate, slice, overwrite, ltb,
  ◌==◌, if◌then◌else◌,
}

-- `::memcpy` inside one buffer, of the C library. Its contract covers parts that do not overlap.
pub record Memcpy : Type 0 where
  -- buffer, destination, source, number of bytes
  pub copy : List ℕ → ℕ → ℕ → ℕ → List ℕ
  pub copy_disjoint :
      (xs : List ℕ) (dst src n : ℕ)
      → src + n ≤ length xs
      → dst + n ≤ src
      → copy xs dst src n ≡ overwrite xs dst (slice src n xs)

pub record RecvBuffer : Type 0 where
  pub capacity : ℕ
  pub buffer_size : ℕ
  pub read_pos : ℕ
  pub write_pos : ℕ
  pub buffer : List ℕ

abbrev buffer_count : ℕ
buffer_count = 10

-- The constructor; `resize` fills with zeros.
unfoldable pub make : ℕ → RecvBuffer
make size = record {
  capacity = size * buffer_count;
  buffer_size = size;
  read_pos = 0;
  write_pos = 0;
  buffer = replicate (size * buffer_count) 0;
}

unfoldable pub free_size : RecvBuffer → ℕ
free_size b = b.capacity - b.write_pos

unfoldable pub data_size : RecvBuffer → ℕ
data_size b = b.write_pos - b.read_pos

unfoldable pub clean : Memcpy → RecvBuffer → RecvBuffer
unfolding data_size
clean m b =
    let size = data_size b in
    if size == 0
    then record b { write_pos = 0; read_pos = 0 }
    else record b { buffer = m.copy b.buffer 0 b.read_pos size; write_pos = size; read_pos = 0 }

unfoldable pub on_read : ℕ → RecvBuffer → RecvBuffer × Bool
unfolding data_size
on_read process_len b =
    if ltb (data_size b) process_len
    then (b, false)
    else (record b { read_pos = b.read_pos + process_len }, true)

unfoldable pub on_write : ℕ → RecvBuffer → RecvBuffer × Bool
unfolding free_size
on_write num_of_bytes b =
    if ltb (free_size b) num_of_bytes
    then (b, false)
    else (record b { write_pos = b.write_pos + num_of_bytes }, true)

-- What `WSARecv` does before the completion that carries the number of bytes: they stand at
-- `WritePos()`.
unfoldable pub arrive : List ℕ → RecvBuffer → RecvBuffer
arrive bytes b = record b { buffer = overwrite b.buffer b.write_pos bytes }

-- The bytes that `ReadPos()` and `DataSize()` show to `OnRecv`.
unfoldable pub pending : RecvBuffer → List ℕ
unfolding data_size
pending b = slice b.read_pos (data_size b) b.buffer

pub record IsValid (b : RecvBuffer) : Type 0 where
  pub order : b.read_pos ≤ b.write_pos
  pub within : b.write_pos ≤ b.capacity
  pub sized : length b.buffer ≡ b.capacity
