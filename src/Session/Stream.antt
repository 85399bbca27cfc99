-- ===== src/Session/Stream.antt =====
-- A session that gets a stream in several completions, cut anywhere.
use cplus_server_core_model.Session.{Session, Kernel, real_error, process_recv, ℕ}
use cplus_server_core_model.Session.Effects.{delivered}
use cplus_server_core_model.Session.Receiving.{IsOpen, with_bytes, process_recv-Frames}
use cplus_server_core_model.Packet.Frames.{
  Frames, Frames-append, concat, ArePackets, Frames-unique, Frames-concat,
}
use cplus_server_core_model.Recv.{Memcpy, RecvBuffer, pending, free_size, data_size, IsValid}
use cplus_server_core_model.Recv.Queue.{length-pending}
use cplus_server_core_model.Prelude.{
  ℕ, List, Option, [], some, ◌<◌, ◌∷◌, length, ◌++◌, ◌≤◌, append-nil, ◌≡◌, append_assoc, none, true,
  sym, refl, arith, ap, ◌∙◌, length-append, ◌+◌,
}

-- The completions of `WSARecv`, one for each chunk.
pub receive_all : Memcpy → Kernel → ℕ → List (List ℕ) → Session → Option Session
receive_all m k rounds [] s = some s
receive_all m k rounds (c ∷ cs) s = elim (process_recv m k rounds (length c) (with_bytes c s)) [
  | none ↦ none
  | some t ↦ receive_all m k rounds cs t
]

-- Cut so, each chunk holds a byte, and fits beside the tail that is left when it arrives; behind it no more
-- is left than the packets in front have.
pub data Cut (room : ℕ) : List ℕ → List (List ℕ) → List (List ℕ) → List ℕ → Type 0 where
  done : {tail : List ℕ} → Cut room tail [] [] tail
  chunk :
      {left : List ℕ} {c : List ℕ} {cs : List (List ℕ)} {ps qs : List (List ℕ)} {tail end : List ℕ}
      → 0 < length c
      → length (left ++ c) ≤ room
      → Frames (left ++ c) ps tail
      → length tail + length tail ≤ length (left ++ c)
      → Cut room tail cs qs end
      → Cut room left (c ∷ cs) (ps ++ qs) end

Frames-tail_again :
    {bytes tail : List ℕ} {ps : List (List ℕ)} → Frames bytes ps tail → Frames tail [] tail
Frames-tail_again (Frames.short h) = Frames.short h
Frames-tail_again (Frames.partial h l) = Frames.partial h l
Frames-tail_again (Frames.packet h p l f) = Frames-tail_again f

-- However a stream is cut, the packets are those of the whole stream.
Cut-Frames :
    {room : ℕ} {left end : List ℕ} {cs ps : List (List ℕ)}
    → Frames left [] left
    → Cut room left cs ps end
    → Frames (left ++ concat cs) ps end
Cut-Frames {left = l} f done = rw (append-nil l) f
Cut-Frames f (chunk {left = l} {c = c} {cs = cs} pos fits g apart cut) =
    rw (← append_assoc l c (concat cs))
      (Frames-append (concat cs) g (Cut-Frames (Frames-tail_again g) cut))

free-enough :
    (c left : List ℕ) (room : ℕ) (b : RecvBuffer)
    → IsValid b
    → b.read_pos ≡ 0
    → pending b ≡ left
    → b.capacity ≡ room
    → length (left ++ c) ≤ room
    → length c ≤ free_size b
unfolding free_size data_size
free-enough c left room b v z e cap fits =
    omega (arith, length-pending b v, ap length e, length-append left c)

-- A session between two completions: it waits for bytes, and its buffer starts with the left-over.
pub record IsReady (room : ℕ) (left : List ℕ) (s : Session) : Type 0 where
  pub is_open : IsOpen s
  pub waits : s.recv_owner ≡ true
  pub compact : s.recv_buffer.read_pos ≡ 0
  pub has_left : pending s.recv_buffer ≡ left
  pub has_room : s.recv_buffer.capacity ≡ room

-- What has come of a session in the end.
pub record Ended (s : Session) (packets : List (List ℕ)) (tail : List ℕ) (t : Session)
    : Type 0 where
  pub left_over : pending t.recv_buffer ≡ tail
  pub handed : delivered t.log ≡ delivered s.log ++ packets

receive_all-Cut :
    (m : Memcpy) (k : Kernel) (rounds : ℕ) {room : ℕ} {left end : List ℕ} {cs ps : List (List ℕ)}
    → real_error k.wsa_recv ≡ none
    → room < rounds
    → Cut room left cs ps end
    → (s : Session) → IsReady room left s
    → (t : Session) × (receive_all m k rounds cs s ≡ some t) × Ended s ps end t
unfolding receive_all
receive_all-Cut m k rounds fine fuel done s r =
    (s, refl, record { left_over = r.has_left; handed = sym (append-nil (delivered s.log)) })
receive_all-Cut m k rounds {room = room} fine fuel
      (chunk {left = l} {c = c} {cs = cs} {ps = ps} {qs = qs} {tail = tl} pos fits f apart cut) s
      r =
    let b = s.recv_buffer in
    let enough = free-enough c l room b r.is_open.valid r.compact r.has_left r.has_room fits in
    let (t, one, adv) =
      process_recv-Frames m k rounds c s {packets = ps} {tail = tl} fine r.is_open pos enough
        (rw r.has_left (omega arith)) (rw r.has_left f) (rw r.has_left (omega (arith, apart))) in
    let ready : IsReady room tl t = record {
      is_open = adv.open_still;
      waits = adv.waits;
      compact = adv.compact;
      has_left = adv.left_over;
      has_room = adv.same_capacity ∙ r.has_room;
    } in
    let (u, rest, ended) = receive_all-Cut m k rounds fine fuel cut t ready in
    (
      u,
      rw (one, receive_all) rest,
      record {
        left_over = ended.left_over;
        handed = ended.handed ∙ rw adv.handed (append_assoc (delivered s.log) ps qs);
      },
    )

-- Packets that a peer sends one behind the other, with the beginning of another behind them,
-- arrive at OnRecvPacket as they were sent, each once and in order, wherever the network cuts the
-- bytes into completions, each of a byte at least and of no more than fit beside the left-over; the beginning of
-- the other stays in the receive buffer. The session is connected, every `WSARecv` is accepted, and
-- behind each completion no more bytes are left over than the packets in front of them have, so that
-- `memcpy` copies parts that do not overlap.
pub receive_all-concat :
    (m : Memcpy) (k : Kernel) (rounds : ℕ) {room : ℕ} {tail end : List ℕ}
    {cs ps packets : List (List ℕ)}
    → real_error k.wsa_recv ≡ none
    → room < rounds
    → ArePackets packets
    → Frames tail [] tail
    → concat cs ≡ concat packets ++ tail
    → Cut room [] cs ps end
    → (s : Session) → IsReady room [] s
    → (t : Session) × (receive_all m k rounds cs s ≡ some t) × Ended s packets tail t
receive_all-concat m k rounds {tail = tail} {end = end} {ps = ps} {packets = packets} fine fuel are
      t e cut s r =
    let whole = rw e at (Cut-Frames (Frames.short (omega arith)) cut) in
    let same = Frames-unique whole (Frames-concat packets tail are t) in
    let (u, returns, ended) = receive_all-Cut m k rounds fine fuel cut s r in
    (u, returns, rw (← same.0, ← same.1) ended)
