-- ===== src/FlatBuffer.antt =====
-- ServerCore/FlatBufferWriter.{h,cpp} and ServerCore/FlatBufferReader.{h,cpp}: fields written into
-- and read out of a packet. `debug` says whether `_DEBUG` is defined: only then are the sizes
-- checked. A pointer into the buffer is a position, and the buffer is the memory from there to the
-- end of the allocation: an access beyond it is `stray`.
pub mod Fields
pub mod Writing
pub mod Reading
pub mod Tests
use cplus_server_core_model.Bytes.{encode, decode}
use Prim.Native.Nat.{ℕ, suc}
use cplus_server_core_model.Prelude.{
  ◌>>=◌, ◌>>◌, ℕ, List, Bool, Outcome, ◌∷◌, [], ◌%◌, ◌+◌, if◌then◌else◌, guard, ◌++◌, length, ◌-◌,
  leb, not, take, ◌*◌, ok, ◌&&◌, drop, overwrite, ltb, slice, zero, stray, buffer_overrun,
  assert_that, ◌/◌,
}

abbrev pub u16 : ℕ → ℕ
u16 n = n % 65536

pub record Writer : Type 0 where
  pub buffer : List ℕ
  pub size : ℕ
  pub pos : ℕ

-- The constructor writes the id into the header, and leaves `_pos` behind the header.
unfoldable pub open_writer : List ℕ → ℕ → ℕ → Outcome Writer
open_writer buffer alloc_size id =
    if leb 4 (length buffer)
    then ok (record { buffer = overwrite buffer 2 (encode 2 id); size = u16 alloc_size; pos = 4 })
    else stray

unfoldable pub free_size : Writer → ℕ
free_size w = (w.size + 65536 - w.pos) % 65536

-- `::memcpy(&_buffer[_pos], src, len); _pos += len`.
unfoldable pub put : List ℕ → Writer → Outcome Writer
put src w =
    if leb (w.pos + length src) (length w.buffer)
    then ok (record w { buffer = overwrite w.buffer w.pos src; pos = u16 (w.pos + length src) })
    else stray

-- The check that a debug build makes before it writes `len` bytes.
unfoldable pub check_write : Bool → ℕ → Writer → Outcome (Unit {0})
unfolding free_size
check_write debug len w = guard (not (debug && ltb (free_size w) len)) buffer_overrun

-- `Write(void*, uint16)`, and `Write<T>` with the bytes of the value.
unfoldable pub write : Bool → List ℕ → Writer → Outcome Writer
unfolding check_write put
write debug src w = do check_write debug (length src) w; put src w

-- `Insert_ZeroCopy<T>`, with the bytes of the object that is built in place.
unfoldable insert_zero_copy : Bool → List ℕ → Writer → Outcome (ℕ × Writer)
unfolding check_write put
insert_zero_copy debug object w = do
  check_write debug (length object) w
  w' ← put object w
  ok (w.pos, w')

-- `operator <<` checks nothing.
unfoldable shift_in : List ℕ → Writer → Outcome Writer
unfolding put
shift_in src w = put src w

-- `Reserve<T>`: the position of the reserved field, and the writer behind it.
unfoldable pub reserve : Bool → ℕ → Writer → Outcome (ℕ × Writer)
unfolding check_write
reserve debug len w = do check_write debug len w; ok (w.pos, record w { pos = u16 (w.pos + len) })

-- A `wstring` is its UTF-16 units, two bytes each.
abbrev pub units : List ℕ → List ℕ
units [] = []
units (c ∷ cs) = encode 2 c ++ units cs

unfoldable pub write_wstring : Bool → List ℕ → Writer → Outcome Writer
write_wstring debug wstr w = do
  let len = u16 (length wstr)
  let byte_len = u16 (2 * len)
  check_write debug (2 + byte_len) w
  w' ← put (encode 2 byte_len) w
  put (take byte_len (units wstr)) w'

-- The destructor: the size into the header, and `SendBuffer::Close`, which asserts that the size
-- is within the allocation. The result is what the send buffer then holds.
unfoldable pub close_writer : ℕ → Writer → Outcome (List ℕ)
close_writer alloc_size w = do
  assert_that (leb w.pos alloc_size)
  ok (take w.pos (overwrite w.buffer 0 (encode 2 w.pos)))

-- `FBW_SmallHeader`: its constructor, and its destructor with the two fields that it set.
unfoldable open_small_header : Bool → Writer → Outcome ((ℕ × ℕ) × Writer)
unfolding reserve
open_small_header debug w = do r ← reserve debug 2 w; ok ((r.0, r.1.pos), r.1)

unfoldable close_small_header : ℕ × ℕ → Writer → Outcome Writer
close_small_header (small_header, start) w =
    if leb (small_header + 2) (length w.buffer)
    then ok (record w {
      buffer = overwrite w.buffer small_header (encode 2 (u16 (w.pos + 65536 - start)));
    })
    else stray

pub record Reader : Type 0 where
  pub buffer : List ℕ
  pub size : ℕ
  pub pos : ℕ

unfoldable pub open_reader : List ℕ → ℕ → Reader
open_reader buffer size = record { buffer = buffer; size = u16 size; pos = 4 }

unfoldable read_free_size : Reader → ℕ
read_free_size r = (r.size + 65536 - r.pos) % 65536

unfoldable pub check_read : Bool → ℕ → Reader → Outcome (Unit {0})
unfolding read_free_size
check_read debug len r = guard (not (debug && ltb (read_free_size r) len)) buffer_overrun

-- The bytes at `_buffer[_pos]`.
unfoldable pub get : ℕ → Reader → Outcome (List ℕ)
get len r = if leb (r.pos + len) (length r.buffer) then ok (slice r.pos len r.buffer) else stray

unfoldable pub peek : Bool → ℕ → Reader → Outcome (List ℕ)
unfolding check_read get
peek debug len r = do check_read debug len r; get len r

-- `Read(void*, uint16)` and, with the value of the bytes, `Read<T>`.
unfoldable pub read : Bool → ℕ → Reader → Outcome (List ℕ × Reader)
unfolding peek
read debug len r = do bytes ← peek debug len r; ok (bytes, record r { pos = u16 (r.pos + len) })

-- `AssistCopying` and `ZeroCopy<T>`: the position that was next, and the reader behind it.
unfoldable assist_copying : Bool → ℕ → Reader → Outcome (ℕ × Reader)
unfolding check_read
assist_copying debug len r = do
  check_read debug len r
  ok (r.pos, record r { pos = u16 (r.pos + len) })

unfoldable zero_copy : Bool → ℕ → Reader → Outcome (ℕ × Reader)
unfolding check_read
zero_copy debug len r = do check_read debug len r; ok (r.pos, record r { pos = u16 (r.pos + len) })

-- `operator >>` checks nothing.
unfoldable shift_out : ℕ → Reader → Outcome (List ℕ × Reader)
unfolding get
shift_out len r = do bytes ← get len r; ok (bytes, record r { pos = u16 (r.pos + len) })

unfoldable pub read_int : Bool → ℕ → Reader → Outcome (ℕ × Reader)
unfolding read
read_int debug width r = do (bytes, r') ← read debug width r; ok (decode bytes, r')

abbrev pub from_units : ℕ → List ℕ → List ℕ
from_units zero bytes = []
from_units (suc n) bytes = decode (take 2 bytes) ∷ from_units n (drop 2 bytes)

unfoldable pub read_wstring : Bool → Reader → Outcome (List ℕ × Reader)
read_wstring debug r = do
  (byte_len, r') ← read_int debug 2 r
  check_read debug byte_len r'
  bytes ← get (2 * (byte_len / 2)) r'
  ok (from_units (byte_len / 2) bytes, record r' { pos = u16 (r'.pos + byte_len) })

-- `FlatBufferWriter::CopyFBR`.
unfoldable copy_fbr : Bool → ℕ → Reader → Writer → Outcome (Reader × Writer)
unfolding check_write put read
copy_fbr debug len r w = do
  check_write debug len w
  (bytes, r') ← read debug len r
  w' ← put bytes w
  ok (r', w')
