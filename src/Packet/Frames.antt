-- ===== src/Packet/Frames.antt =====
-- What a stream of bytes holds: whole packets, and a tail that is no whole packet yet.
use cplus_server_core_model.Bytes.{decode}
use cplus_server_core_model.Packet.{header_size, suc}
use cplus_server_core_model.Prelude.{
  refl, zero, suc, ℕ, ◌≤◌, ◌<◌, List, [], ◌∷◌, length, take, drop, ◌++◌, ◌≡◌, arith, ap,
  take-append_left, ◌∙◌, dec_lt, length-append, length-drop, drop-append_left, drop-length,
  append_assoc, take-length, ◌-◌, ◌+◌, sym, drop-drop,
}

-- The size that the first bytes of a stream state.
abbrev pub stated_size : List ℕ → ℕ
stated_size bytes = decode (take 2 bytes)

-- `Frames bytes packets tail`: the stream is the packets, one behind the other, and then the tail.
pub data Frames : List ℕ → List (List ℕ) → List ℕ → Type 0 where
  short : {bytes : List ℕ} → length bytes < header_size → Frames bytes [] bytes
  partial :
      {bytes : List ℕ}
      → header_size ≤ length bytes
      → length bytes < stated_size bytes
      → Frames bytes [] bytes
  packet :
      {bytes : List ℕ} {packets : List (List ℕ)} {tail : List ℕ}
      → header_size ≤ length bytes
      → 0 < stated_size bytes
      → stated_size bytes ≤ length bytes
      → Frames (drop (stated_size bytes) bytes) packets tail
      → Frames bytes (take (stated_size bytes) bytes ∷ packets) tail

stated_size-append :
    (xs ys : List ℕ) → header_size ≤ length xs → stated_size (xs ++ ys) ≡ stated_size xs
stated_size-append xs ys h = ap decode (take-append_left 2 xs ys (omega arith))

-- `packet` at a size that is only equal to the stated one.
packet_of :
    (bytes : List ℕ) (n : ℕ) {packets : List (List ℕ)} {tail : List ℕ}
    → stated_size bytes ≡ n
    → header_size ≤ length bytes
    → 0 < n
    → n ≤ length bytes
    → Frames (drop n bytes) packets tail
    → Frames bytes (take n bytes ∷ packets) tail
packet_of bytes n e h pos fits f = rw (← e) (packet h (omega arith) (omega arith) (rw e f))

-- More bytes continue the tail: the packets so far stay, and those of the tail follow.
pub Frames-append :
    {bytes tail : List ℕ} {packets : List (List ℕ)} (more : List ℕ) {later : List (List ℕ)}
    {rest : List ℕ}
    → Frames bytes packets tail
    → Frames (tail ++ more) later rest
    → Frames (bytes ++ more) (packets ++ later) rest
Frames-append more (short h) g = g
Frames-append more (partial h l) g = g
Frames-append more (packet {bytes = b} h pos fits f) g =
    let n = stated_size b in
    let ih = Frames-append more f g in
    rw (← take-append_left n b more fits) (
      packet_of (b ++ more) n (stated_size-append b more h) (omega (arith, length-append b more))
        pos (omega (arith, length-append b more)) (rw (drop-append_left n b more fits) ih))

-- A stream has one decomposition.
pub Frames-unique :
    {bytes t u : List ℕ} {ps qs : List (List ℕ)}
    → Frames bytes ps t
    → Frames bytes qs u
    → (ps ≡ qs) × (t ≡ u)
Frames-unique (short h) (short k) = (refl, refl)
Frames-unique (short h) (partial k l) = absurd (omega arith)
Frames-unique (short h) (packet k p l g) = absurd (omega arith)
Frames-unique (partial h m) (short k) = absurd (omega arith)
Frames-unique (partial h m) (partial k l) = (refl, refl)
Frames-unique (partial h m) (packet k p l g) = absurd (omega arith)
Frames-unique (packet h o m f) (short k) = absurd (omega arith)
Frames-unique (packet h o m f) (partial k l) = absurd (omega arith)
Frames-unique (packet {bytes = b} h o m f) (packet k p l g) =
    let ih = Frames-unique f g in (ap (◌∷◌ (take (stated_size b) b)) ih.0, ih.1)

-- The tail is the end of the stream.
pub Frames-tail :
    {bytes tail : List ℕ} {packets : List (List ℕ)}
    → Frames bytes packets tail
    → (length tail ≤ length bytes) × (drop (length bytes - length tail) bytes ≡ tail)
Frames-tail (short {bytes = b} h) =
    let e : length b - length b ≡ 0 = omega arith in (omega arith, rw e refl)
Frames-tail (partial {bytes = b} h l) =
    let e : length b - length b ≡ 0 = omega arith in (omega arith, rw e refl)
Frames-tail {tail = t} (packet {bytes = b} h pos fits f) =
    let n = stated_size b in
    let (le, e) = Frames-tail f in
    let rest = length-drop n b in
    let sum : n + (length (drop n b) - length t) ≡ length b - length t = omega arith in
    (omega arith, rw sum at (sym (drop-drop (length (drop n b) - length t) n b) ∙ e))

-- A packet as `FlatBufferWriter` leaves it: the header's size is its length.
pub record IsPacket (bytes : List ℕ) : Type 0 where
  pub has_header : header_size ≤ length bytes
  pub states_length : stated_size bytes ≡ length bytes

abbrev pub ArePackets : List (List ℕ) → Type 0
ArePackets [] = Unit
ArePackets (p ∷ ps) = IsPacket p × ArePackets ps

abbrev pub concat : List (List ℕ) → List ℕ
concat [] = []
concat (p ∷ ps) = p ++ concat ps

packet_first :
    (p rest : List ℕ) (ps : List (List ℕ)) (tail : List ℕ)
    → IsPacket p
    → Frames rest ps tail
    → Frames (p ++ rest) (p ∷ ps) tail
packet_first p rest ps tail v f = rw (take-length p rest) at first
  where
    behind_first : Frames (drop (length p) (p ++ rest)) ps tail
    behind_first = rw (drop-length p rest) f

    first : Frames (p ++ rest) (take (length p) (p ++ rest) ∷ ps) tail
    first =
        packet_of (p ++ rest) (length p) (stated_size-append p rest v.has_header ∙ v.states_length)
          (omega (arith, v.has_header, length-append p rest)) (omega (arith, v.has_header))
          (omega (arith, length-append p rest)) behind_first

-- Packets that are sent one behind the other are the frames of the stream.
pub Frames-concat :
    (ps : List (List ℕ)) (tail : List ℕ)
    → ArePackets ps
    → Frames tail [] tail
    → Frames (concat ps ++ tail) ps tail
Frames-concat [] tail h t = t
Frames-concat (p ∷ ps) tail (v, vs) t =
    rw (append_assoc p (concat ps) tail)
      (packet_first p (concat ps ++ tail) ps tail v (Frames-concat ps tail vs t))

-- A stream that comes, after some packets, to a header that states the size 0.
pub data Stalls : List ℕ → Type 0 where
  zero_size : {bytes : List ℕ} → header_size ≤ length bytes → stated_size bytes ≡ 0 → Stalls bytes
  behind :
      {bytes : List ℕ}
      → header_size ≤ length bytes
      → 0 < stated_size bytes
      → stated_size bytes ≤ length bytes
      → Stalls (drop (stated_size bytes) bytes)
      → Stalls bytes

pub data Reading (bytes : List ℕ) : Type 0 where
  framed : (packets : List (List ℕ)) (tail : List ℕ) → Frames bytes packets tail → Reading bytes
  stalled : Stalls bytes → Reading bytes

Reading-behind :
    (bytes : List ℕ)
    → header_size ≤ length bytes
    → 0 < stated_size bytes
    → stated_size bytes ≤ length bytes
    → Reading (drop (stated_size bytes) bytes)
    → Reading bytes
Reading-behind bytes h p l (framed ps t f) = framed _ t (packet h p l f)
Reading-behind bytes h p l (stalled s) = stalled (behind h p l s)

Reading-below : (k : ℕ) (bytes : List ℕ) → length bytes < k → Reading bytes
Reading-below zero bytes lt = absurd (omega arith)
Reading-below (suc k) bytes lt = elim (dec_lt (length bytes) header_size) [
  | yes s ↦ framed [] bytes (short s)
  | no h ↦ elim (dec_lt (length bytes) (stated_size bytes)) [
    | yes l ↦ framed [] bytes (partial (omega arith) l)
    | no m ↦ elim (dec_lt 0 (stated_size bytes)) [
      | yes p ↦ Reading-behind bytes (omega arith) p (omega arith) (
          Reading-below k (drop (stated_size bytes) bytes)
            (omega (arith, length-drop (stated_size bytes) bytes)))
      | no z ↦ stalled (zero_size (omega arith) (omega arith))
    ]
  ]
]

-- Every stream is one or the other.
pub read_stream : (bytes : List ℕ) → Reading bytes
read_stream bytes = Reading-below (suc (length bytes)) bytes (omega arith)
