-- ===== src/SendBuffer.antt =====
-- ServerCore/SendBuffer.{h,cpp}: send buffers as parts of a thread's chunk of 6000 bytes. A send
-- buffer is the part that starts at a position of its chunk. When a chunk goes back to the
-- manager, by PushGlobal, depends on who still refers to it, and is not modelled: the chunks that
-- are there to pop are part of the state that a call finds.
pub mod Regions
pub mod Tests
use Prim.Native.Nat.{ℕ, ◌+◌}
use mathlib.Core.Option.{Option, none, some}
use cplus_server_core_model.Prelude.{
  Bool, false, ◌+◌, Outcome, List, ◌∷◌, ◌-◌, ◌>>◌, ◌>>=◌, assert_that, ok, ◌%◌, [], not, leb, ◌||◌,
  if◌then◌else◌, ltb, true,
}

-- SEND_BUFFER_CHUNK_SIZE.
abbrev pub chunk_size : ℕ
chunk_size = 6000

pub record Chunk : Type 0 where
  pub is_open : Bool
  pub used_size : ℕ

-- A send buffer: where its bytes start in the chunk, and its two sizes.
pub record SendBuffer : Type 0 where
  pub start : ℕ
  pub alloc_size : ℕ
  pub write_size : ℕ

unfoldable pub make : Chunk
make = record { is_open = false; used_size = 0 }

unfoldable pub reset : Chunk → Chunk
reset c = record { is_open = false; used_size = 0 }

unfoldable pub free_size : Chunk → ℕ
free_size c = (chunk_size + 4294967296 - c.used_size) % 4294967296

-- `SendBufferChunk::Open`: no buffer when the chunk is too full.
unfoldable pub open_buffer : Bool → ℕ → Chunk → Outcome (Option SendBuffer × Chunk)
unfolding free_size
open_buffer debug alloc_size c = do
  assert_that (not debug || leb alloc_size chunk_size)
  assert_that (not c.is_open)
  if ltb (free_size c) alloc_size
      then ok (none, c)
      else ok (
        some (record { start = c.used_size; alloc_size = alloc_size; write_size = 0 }),
        record c { is_open = true },
      )

-- `SendBufferChunk::Close`.
unfoldable pub close_chunk : ℕ → Chunk → Outcome Chunk
close_chunk write_size c = do
  assert_that c.is_open
  ok (record { is_open = false; used_size = (c.used_size + write_size) % 4294967296 })

-- `SendBuffer::Close`, on the buffer and on its owner.
unfoldable pub close : ℕ → SendBuffer → Chunk → Outcome (SendBuffer × Chunk)
unfolding close_chunk
close write_size b c = do
  assert_that (leb write_size b.alloc_size)
  c' ← close_chunk write_size c
  ok (record b { write_size = write_size }, c')

-- A thread's side of the manager: its `LSendBufferChunk`, and the chunks that were given back to
-- the manager, the last one first.
pub record Manager : Type 0 where
  pub mine : Option Chunk
  pub given_back : List Chunk

-- `SendBufferManager::Pop`.
unfoldable pub pop : List Chunk → Chunk × List Chunk
unfolding make
pop [] = (make, [])
pop (c ∷ cs) = (c, cs)

-- The chunk that `SendBufferManager::Open` opens, and what it leaves to the others.
unfoldable pub choose : ℕ → Manager → Outcome (Chunk × List Chunk)
unfolding pop reset free_size
choose size m = do
  let (first, left) = from_mine m.mine m.given_back
  assert_that (not first.is_open)
  if ltb (free_size first) size then ok (reset (pop left).0, (pop left).1) else ok (first, left)
  where
    from_mine : Option Chunk → List Chunk → Chunk × List Chunk
    from_mine none cs = pop cs
    from_mine (some c) cs = (c, cs)

-- `SendBufferManager::Open`.
unfoldable pub open_mine : Bool → ℕ → Manager → Outcome (Option SendBuffer × Manager)
unfolding choose open_buffer
open_mine debug size m = do
  (c, left) ← choose size m
  (b, c') ← open_buffer debug size c
  ok (b, record { mine = some c'; given_back = left })

unfoldable pub make_send_buff : Bool → Manager → Outcome (Option SendBuffer × Manager)
unfolding open_mine
make_send_buff debug m = open_mine debug 1024 m
