-- ===== src/FlatBuffer/Reading.antt =====
-- Reading back what a packet's fields were written as.
use cplus_server_core_model.FlatBuffer.Fields.{
  Field, shape, bytes_of, body, AreFields, IsField, AreUnits, read_field, read_all, length-units,
  from_units-units,
}
use cplus_server_core_model.FlatBuffer.{
  Reader, read, read_int, read_wstring, peek, get, check_read, units, u16, open_reader, List, Bool,
  length, ok, drop, leb, ◌∷◌, take,
}
use cplus_server_core_model.FlatBuffer.Writing.{packet, write_packet, write_packet-packet}
use cplus_server_core_model.Bytes.{encode, length-encode, decode-encode}
use Prim.Native.Nat.{◌/◌, ℕ}
use cplus_server_core_model.Prelude.{
  ℕ, List, Bool, ◌≡◌, map, ◌+◌, ◌<◌, ◌++◌, length, length-append, ◌≤◌, ok, ◌^◌, arith, ap, drop,
  leb, ◌*◌, ◌∙◌, sym, true, refl, append_assoc, drop-drop, take, [], take-length, drop-length,
  drop-append_left, ◌>>=◌,
}

-- The reader behind `n` bytes.
abbrev pub moved : ℕ → Reader → Reader
moved n r = record r { pos = r.pos + n }

-- A reader over a whole packet (and what stands behind it), with `bytes` next and all inside the
-- packet.
pub record Ahead (bytes : List ℕ) (more : List ℕ) (r : Reader) : Type 0 where
  pub small : r.size < 65536
  pub inside : r.pos + length bytes ≤ r.size
  pub whole : r.size ≤ length r.buffer
  pub next : drop r.pos r.buffer ≡ bytes ++ more

pub Ahead-left :
    (xs ys more : List ℕ) (r : Reader) → Ahead (xs ++ ys) more r → Ahead xs (ys ++ more) r
Ahead-left xs ys more r a =
    let n = length-append xs ys in
    record {
      small = a.small;
      inside = let i = a.inside in omega arith;
      whole = a.whole;
      next = a.next ∙ append_assoc xs ys more;
    }

pub Ahead-right :
    (xs ys more : List ℕ) (r : Reader)
    → Ahead (xs ++ ys) more r
    → Ahead ys more (moved (length xs) r)
Ahead-right xs ys more r a =
    let n = length-append xs ys in
    record {
      small = a.small;
      inside = let i = a.inside in omega arith;
      whole = a.whole;
      next =
          sym (drop-drop (length xs) r.pos r.buffer)
          ∙ (ap (drop (length xs)) (a.next ∙ append_assoc xs ys more)
              ∙ drop-length xs (ys ++ more));
    }

check_read-fits :
    (debug : Bool) (n : ℕ) (r : Reader)
    → r.size < 65536
    → r.pos + n ≤ r.size
    → check_read debug n r ≡ ok tt
unfolding check_read
check_read-fits debug n r small h = ground arith

get-Ahead :
    (bytes more : List ℕ) (r : Reader) → Ahead bytes more r → get (length bytes) r ≡ ok bytes
unfolding get
get-Ahead bytes more r a =
    let i = a.inside in
    let w = a.whole in
    let b : leb (r.pos + length bytes) (length r.buffer) ≡ true = ground arith in
    rw b (ap ok (ap (take (length bytes)) a.next ∙ take-length bytes more))

pub read_int-Ahead :
    (debug : Bool) (n x : ℕ) (more : List ℕ) (r : Reader)
    → x < 256 ^ n
    → Ahead (encode n x) more r
    → read_int debug n r ≡ ok (x, moved n r)
unfolding read_int read peek
read_int-Ahead debug n x more r lt a =
    let len = length-encode n x in
    let i = a.inside in
    let s = a.small in
    let g = rw len at (get-Ahead (encode n x) more r a) in
    let e : u16 (r.pos + n) ≡ r.pos + n = omega arith in
    rw (check_read-fits debug n r a.small (omega arith), g, e, decode-encode n x lt) refl

pub read_wstring-Ahead :
    (debug : Bool) (t more : List ℕ) (r : Reader)
    → length t < 32768
    → AreUnits t
    → Ahead (bytes_of (Field.text t)) more r
    → read_wstring debug r ≡ ok (t, moved (length (bytes_of (Field.text t))) r)
unfolding read_wstring
read_wstring-Ahead debug t more r short us a =
    let len = length-encode 2 (2 * length t) in
    let all = length-units t in
    let n = length-append (encode 2 (2 * length t)) (units t) in
    let head =
      read_int-Ahead debug 2 (2 * length t) (units t ++ more) r (omega arith)
        (Ahead-left (encode 2 (2 * length t)) (units t) more r a) in
    let right = rw len at (Ahead-right (encode 2 (2 * length t)) (units t) more r a) in
    let i = a.inside in
    let s = a.small in
    let half : 2 * length t / 2 ≡ length t = omega arith in
    let g = rw all at (get-Ahead (units t) more (moved 2 r) right) in
    let e : u16 (r.pos + 2 + 2 * length t) ≡ r.pos + length (bytes_of (Field.text t)) =
      omega arith in
    rw
      (
        head,
        check_read-fits debug (2 * length t) (moved 2 r) a.small (omega arith),
        half,
        g,
        from_units-units t us,
        e,
      )
      refl

read_field-Ahead :
    (debug : Bool) (f : Field) (more : List ℕ) (r : Reader)
    → IsField f
    → Ahead (bytes_of f) more r
    → read_field debug (shape f) r ≡ ok (f, moved (length (bytes_of f)) r)
unfolding read_field
read_field-Ahead debug (Field.int n x) more r h a =
    rw (read_int-Ahead debug n x more r h a, length-encode n x) refl
read_field-Ahead debug (Field.text t) more r h a =
    rw (read_wstring-Ahead debug t more r h.0 h.1 a) refl

read_all-Ahead :
    (debug : Bool) (fs : List Field) (more : List ℕ) (r : Reader)
    → AreFields fs
    → Ahead (body fs) more r
    → read_all debug (map shape fs) r ≡ ok (fs, moved (length (body fs)) r)
unfolding read_all
read_all-Ahead debug [] more r h a = ap (λ p. ok ([], record r { pos = p })) (omega arith)
read_all-Ahead debug (f ∷ fs) more r h a =
    let n = length-append (bytes_of f) (body fs) in
    let e : r.pos + length (bytes_of f) + length (body fs)
        ≡ r.pos + length (bytes_of f ++ body fs) =
      omega arith in
    rw
      (
        read_field-Ahead debug f (body fs ++ more) r h.0
            (Ahead-left (bytes_of f) (body fs) more r a),
        read_all-Ahead debug fs more (moved (length (bytes_of f)) r) h.1
            (Ahead-right (bytes_of f) (body fs) more r a),
        e,
      )
      refl

-- A reader over a packet, whatever stands behind the packet in the receive buffer.
pub open_reader-Ahead :
    (id : ℕ) (fs : List Field) (behind : List ℕ)
    → 4 + length (body fs) < 65536
    → Ahead (body fs) behind (open_reader (packet id fs ++ behind) (length (packet id fs)))
unfolding open_reader
open_reader-Ahead id fs behind small = record {
  small = omega (arith, all);
  inside = omega (arith, all);
  whole = omega (arith, all, length-append (packet id fs) behind);
  next = drop-append_left 4 (packet id fs) behind (omega (arith, all)) ∙ ap (◌++ behind) last;
}
  where
    size : List ℕ
    size = encode 2 (4 + length (body fs))

    all : length (packet id fs) ≡ 4 + length (body fs)
    all = omega (
      arith,
      length-append size (encode 2 id ++ body fs),
      length-append (encode 2 id) (body fs),
      length-encode 2 (4 + length (body fs)),
      length-encode 2 id,
    )

    first : drop 2 (packet id fs) ≡ encode 2 id ++ body fs
    first =
        rw (length-encode 2 (4 + length (body fs))) at (drop-length size (encode 2 id ++ body fs))

    second : drop 2 (encode 2 id ++ body fs) ≡ body fs
    second = rw (length-encode 2 id) at (drop-length (encode 2 id) (body fs))

    last : drop 4 (packet id fs) ≡ body fs
    last = sym (drop-drop 2 2 (packet id fs)) ∙ (ap (drop 2) first ∙ second)

-- A handler's fields, written into a send buffer that they fit and read back with the same shapes
-- from the packet, come back as they were, in debug and release builds of either side and whatever
-- stands behind the packet in the receive buffer.
pub read-write :
    (debug debug' : Bool) (id : ℕ) (fs : List Field) (buffer behind : List ℕ)
    → AreFields fs
    → length buffer < 65536
    → 4 + length (body fs) ≤ length buffer
    → (do
      sent ← write_packet debug (length buffer) id fs buffer
      (fs', r) ← read_all debug' (map shape fs) (open_reader (sent ++ behind) (length sent))
      ok fs')
      ≡ ok fs
read-write debug debug' id fs buffer behind h small fits =
    rw
      (
        write_packet-packet debug id fs buffer h small fits,
        read_all-Ahead debug' fs behind
            (open_reader (packet id fs ++ behind) (length (packet id fs))) h
            (open_reader-Ahead id fs behind (omega arith)),
      )
      refl
