-- ===== src/FlatBuffer/Writing.antt =====
-- What a packet holds after its fields have been written.
use cplus_server_core_model.Bytes.{encode, decode, length-encode, decode-encode}
use cplus_server_core_model.FlatBuffer.{
  u16, Writer, open_writer, write, write_wstring, close_writer, units, put, check_write, List, Bool,
  ℕ, length, overwrite, ok, take, Outcome, ◌∷◌, [], drop,
}
use cplus_server_core_model.FlatBuffer.Fields.{
  Field, bytes_of, body, AreFields, IsField, write_field, write_all, length-units,
}
use cplus_server_core_model.Packet.Frames.{IsPacket}
use cplus_server_core_model.Prelude.{
  List, ◌<◌, Bool, ℕ, length, ◌≡◌, length-overwrite, overwrite, ◌+◌, ◌∙◌, ◌≤◌, ◌++◌, length-append,
  ok, arith, overwrite-append, sym, ap, take, Outcome, append-nil, overwrite-nil, ◌>>=◌,
  take-length, [], slice-overwrite_self, refl, leb, drop, drop-overwrite_after, take-add, true,
}
use Prim.Native.Nat.{◌*◌, ◌%◌}

-- The writer after `bytes` have gone in at its position.
abbrev pub grown : List ℕ → Writer → Writer
grown bytes w = record w { buffer = overwrite w.buffer w.pos bytes; pos = w.pos + length bytes }

-- A writer whose buffer is its allocation, of fewer bytes than a uint16 counts.
pub record IsWriter (w : Writer) : Type 0 where
  pub small : w.size < 65536
  pub whole : length w.buffer ≡ w.size

grown-IsWriter : (bytes : List ℕ) (w : Writer) → IsWriter w → IsWriter (grown bytes w)
grown-IsWriter bytes w v = record {
  small = v.small;
  whole = length-overwrite w.buffer w.pos bytes ∙ v.whole;
}

put-grown :
    (bytes : List ℕ) (w : Writer)
    → IsWriter w
    → w.pos + length bytes ≤ w.size
    → put bytes w ≡ ok (grown bytes w)
unfolding put
put-grown bytes w v h = ground arith

write-grown :
    (debug : Bool) (bytes : List ℕ) (w : Writer)
    → IsWriter w
    → w.pos + length bytes ≤ w.size
    → write debug bytes w ≡ ok (grown bytes w)
unfolding write
write-grown debug bytes w v h = ground arith

grown-append : (xs ys : List ℕ) (w : Writer) → grown ys (grown xs w) ≡ grown (xs ++ ys) w
grown-append xs ys w =
    let n = length-append xs ys in
    let e : w.pos + length xs + length ys ≡ w.pos + length (xs ++ ys) = omega arith in
    rw (overwrite-append w.buffer w.pos xs ys, e) refl

take_all : (n : ℕ) (xs : List ℕ) → n ≡ length xs → take n xs ≡ xs
take_all n xs e = rw e (rw append-nil at (take-length xs []))

check_write-fits :
    (debug : Bool) (n : ℕ) (w : Writer)
    → IsWriter w
    → w.pos + n ≤ w.size
    → check_write debug n w ≡ ok tt
unfolding check_write
check_write-fits debug n w v h = ground arith

write_wstring-grown :
    (debug : Bool) (t : List ℕ) (w : Writer)
    → IsWriter w
    → length t < 32768
    → w.pos + length (bytes_of (Field.text t)) ≤ w.size
    → write_wstring debug t w ≡ ok (grown (bytes_of (Field.text t)) w)
unfolding write_wstring
write_wstring-grown debug t w v short fits =
    let n = length-append (encode 2 (2 * length t)) (units t) in
    let two = length-encode 2 (2 * length t) in
    let all = length-units t in
    let e : u16 (2 * u16 (length t)) ≡ 2 * length t = omega arith in
    let head = grown (encode 2 (2 * length t)) w in
    rw
      (
        e,
        check_write-fits debug (2 + 2 * length t) w v (omega arith),
        put-grown (encode 2 (2 * length t)) w v (omega arith),
        take_all (2 * length t) (units t) (sym all),
        put-grown (units t) head (grown-IsWriter (encode 2 (2 * length t)) w v) (omega arith),
      )
      (ap ok (grown-append (encode 2 (2 * length t)) (units t) w))

write_field-grown :
    (debug : Bool) (f : Field) (w : Writer)
    → IsField f
    → IsWriter w
    → w.pos + length (bytes_of f) ≤ w.size
    → write_field debug f w ≡ ok (grown (bytes_of f) w)
unfolding write_field
write_field-grown debug (Field.int n x) w h v fits = write-grown debug (encode n x) w v fits
write_field-grown debug (Field.text t) w h v fits = write_wstring-grown debug t w v h.0 fits

write_all-grown :
    (debug : Bool) (fs : List Field) (w : Writer)
    → AreFields fs
    → IsWriter w
    → w.pos + length (body fs) ≤ w.size
    → write_all debug fs w ≡ ok (grown (body fs) w)
unfolding write_all
write_all-grown debug [] w h v fits = ap ok (λ i. record w {
  buffer = sym (overwrite-nil w.buffer w.pos) i;
  pos = (let e : w.pos ≡ w.pos + 0 = omega arith in e) i;
})
write_all-grown debug (f ∷ fs) w h v fits =
    let n = length-append (bytes_of f) (body fs) in
    rw
      (
        write_field-grown debug f w h.0 v (omega arith),
        write_all-grown debug fs (grown (bytes_of f) w) h.1 (grown-IsWriter (bytes_of f) w v)
            (omega arith),
      )
      (ap ok (grown-append (bytes_of f) (body fs) w))

-- A handler's block: `FlatBufferWriter fbw(sendBuffer, id);`, the writes, and the end of the
-- block.
unfoldable pub write_packet : Bool → ℕ → ℕ → List Field → List ℕ → Outcome (List ℕ)
write_packet debug alloc_size id fs buffer = do
  w ← open_writer buffer alloc_size id
  w' ← write_all debug fs w
  close_writer alloc_size w'

-- The packet that stands for these fields: the size, the id, and the fields one behind the other.
abbrev pub packet : ℕ → List Field → List ℕ
packet id fs = encode 2 (4 + length (body fs)) ++ (encode 2 id ++ body fs)

-- A header of two bytes in front of a run that starts at 2.
take-overwrite_both :
    (buffer header rest : List ℕ) (n : ℕ)
    → length header ≡ 2
    → length rest ≡ n
    → 2 + n ≤ length buffer
    → take (2 + n) (overwrite (overwrite buffer 2 rest) 0 header) ≡ header ++ rest
take-overwrite_both buffer header rest n two e fits =
    rw (take-add 2 n whole, front, behind, middle) refl
  where
    inner : List ℕ
    inner = overwrite buffer 2 rest

    whole : List ℕ
    whole = overwrite inner 0 header

    front : take 2 whole ≡ header
    front =
        rw two at
          (slice-overwrite_self inner 0 header (omega (arith, length-overwrite buffer 2 rest)))

    behind : drop 2 whole ≡ drop 2 inner
    behind = drop-overwrite_after 2 inner 0 header (omega arith)

    middle : take n (drop 2 inner) ≡ rest
    middle = rw e at (slice-overwrite_self buffer 2 rest (omega arith))

-- In a debug and in a release build, fields that fit into the allocation come out as the packet
-- that stands for them, and nothing crashes or is written outside the buffer.
pub write_packet-packet :
    (debug : Bool) (id : ℕ) (fs : List Field) (buffer : List ℕ)
    → AreFields fs
    → length buffer < 65536
    → 4 + length (body fs) ≤ length buffer
    → write_packet debug (length buffer) id fs buffer ≡ ok (packet id fs)
unfolding write_packet open_writer close_writer
write_packet-packet debug id fs buffer h small fits = rw (b0, b1) (rw (written, b2) (ap ok final))
  where
    opened : Writer
    opened = record { buffer = overwrite buffer 2 (encode 2 id); size = length buffer; pos = 4 }

    b0 : leb 4 (length buffer) ≡ true
    b0 = ground arith

    b1 : length buffer % 65536 ≡ length buffer
    b1 = omega arith

    b2 : leb (4 + length (body fs)) (length buffer) ≡ true
    b2 = ground arith

    written : write_all debug fs opened ≡ ok (grown (body fs) opened)
    written =
        write_all-grown debug fs opened h
          (record { small = omega arith; whole = length-overwrite buffer 2 (encode 2 id) })
          (omega arith)

    one_run :
        overwrite (overwrite buffer 2 (encode 2 id)) 4 (body fs)
        ≡ overwrite buffer 2 (encode 2 id ++ body fs)
    one_run =
        let e : 2 + length (encode 2 id) ≡ 4 = omega (arith, length-encode 2 id) in
        rw e at (overwrite-append buffer 2 (encode 2 id) (body fs))

    final :
        take (4 + length (body fs)) (
          overwrite
            (overwrite (overwrite buffer 2 (encode 2 id)) 4 (body fs))
            0
            (encode 2 (4 + length (body fs))))
        ≡ packet id fs
    final =
        let e : 4 + length (body fs) ≡ 2 + (2 + length (body fs)) = omega arith in
        let n = length-append (encode 2 id) (body fs) in
        rw one_run (
          rw e (
            take-overwrite_both buffer (encode 2 (2 + (2 + length (body fs))))
              (encode 2 id ++ body fs) (2 + length (body fs))
              (length-encode 2 (2 + (2 + length (body fs)))) (omega (arith, length-encode 2 id))
              (omega arith)))

-- The packet has the form that OnRecv expects, so that the receiver cuts it out whole.
packet-IsPacket :
    (id : ℕ) (fs : List Field) → 4 + length (body fs) < 65536 → IsPacket (packet id fs)
packet-IsPacket id fs small =
    let size = encode 2 (4 + length (body fs)) in
    let two = length-encode 2 (4 + length (body fs)) in
    let n = length-append size (encode 2 id ++ body fs) in
    let n' = length-append (encode 2 id) (body fs) in
    let front = rw two at (take-length size (encode 2 id ++ body fs)) in
    record {
      has_header = omega (arith, length-encode 2 id);
      states_length =
          ap decode front
          ∙ (decode-encode 2 (4 + length (body fs)) (omega arith)
              ∙ omega (arith, length-encode 2 id));
    }
