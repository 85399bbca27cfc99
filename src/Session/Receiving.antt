-- ===== src/Session/Receiving.antt =====
-- The receive side of a session: `WSARecv`, the receive buffer and the packet loop together.
use cplus_server_core_model.Session.{
  Session, Kernel, Effect, real_error, consume, process_recv, ◌≡◌, List, ℕ,
}
use cplus_server_core_model.Session.Effects.{delivered, delivered-append, delivered-map}
use cplus_server_core_model.Packet.{Received, on_recv}
use cplus_server_core_model.Packet.Frames.{Frames, Frames-tail}
use cplus_server_core_model.Packet.Loop.{on_recv-Frames}
use cplus_server_core_model.Recv.{
  Memcpy, RecvBuffer, IsValid, pending, arrive, on_write, on_read, clean, free_size, data_size,
}
use cplus_server_core_model.Recv.Queue.{
  pending-on_write, pending-on_read, pending-clean, on_read-IsValid, on_write-IsValid,
  arrive-IsValid, length-pending,
}
use cplus_server_core_model.Prelude.{
  ◌≡◌, List, ℕ, true, arith, none, ◌++◌, map, ◌≤◌, drop, ◌∷◌, [], inr, ◌∙◌, inl, append-nil, ap,
  length, ◌<◌, refl, some, false, ◌+◌,
}
use Prim.Native.Nat.{◌-◌}

-- A connected session whose receive buffer is sound.
pub record IsOpen (s : Session) : Type 0 where
  pub is_connected : s.connected ≡ true
  pub valid : IsValid s.recv_buffer

-- `t` has gone on from `s` by these packets, and `tail` is left over.
pub record Advanced (s : Session) (packets : List (List ℕ)) (tail : List ℕ) (t : Session)
    : Type 0 where
  pub open_still : IsOpen t
  pub left_over : pending t.recv_buffer ≡ tail
  pub handed : delivered t.log ≡ delivered s.log ++ packets
  pub same_capacity : t.recv_buffer.capacity ≡ s.recv_buffer.capacity
  pub compact : t.recv_buffer.read_pos ≡ 0
  pub waits : t.recv_owner ≡ true

delivered-received :
    (es : List Effect) (ps : List (List ℕ)) (n : ℕ)
    → delivered ((es ++ map Effect.on_recv_packet ps) ++ Effect.wsa_recv n ∷ [])
      ≡ delivered es ++ ps
delivered-received es ps n =
    delivered-append (es ++ map Effect.on_recv_packet ps) (Effect.wsa_recv n ∷ [])
    ∙ (append-nil (delivered (es ++ map Effect.on_recv_packet ps))
        ∙ (delivered-append es (map Effect.on_recv_packet ps)
            ∙ ap (◌++◌ (delivered es)) (delivered-map ps)))

capacity-clean : (m : Memcpy) (b : RecvBuffer) → (clean m b).capacity ≡ b.capacity
unfolding clean
capacity-clean m b = ground arith

read_pos-clean : (m : Memcpy) (b : RecvBuffer) → (clean m b).read_pos ≡ 0
unfolding clean
read_pos-clean m b = ground arith

capacity-on_read : (n : ℕ) (b : RecvBuffer) → (on_read n b).0.capacity ≡ b.capacity
unfolding on_read
capacity-on_read n b = ground arith

capacity-on_write : (n : ℕ) (b : RecvBuffer) → (on_write n b).0.capacity ≡ b.capacity
unfolding on_write
capacity-on_write n b = ground arith

capacity-arrive : (bs : List ℕ) (b : RecvBuffer) → (arrive bs b).capacity ≡ b.capacity
unfolding arrive
capacity-arrive bs b = refl

read_pos-arrived :
    (bs : List ℕ) (b : RecvBuffer) → (on_write (length bs) (arrive bs b)).0.read_pos ≡ b.read_pos
unfolding on_write arrive
read_pos-arrived bs b = ground arith

on_read-apart :
    (n : ℕ) (b : RecvBuffer)
    → data_size b ≤ b.read_pos + n + n
    → n ≤ data_size b
    → data_size (on_read n b).0 ≤ (on_read n b).0.read_pos
unfolding on_read data_size
on_read-apart n b h le = ground (arith, h, le)

-- `consume` where OnRead succeeds and `WSARecv` is accepted.
consume-lem :
    (m : Memcpy) (k : Kernel) (s : Session) (r : Received)
    → real_error k.wsa_recv ≡ none
    → s.connected ≡ true
    → r.process_len ≤ data_size s.recv_buffer
    → (on_read r.process_len s.recv_buffer).1 ≡ true
    → let rest = clean m (on_read r.process_len s.recv_buffer).0 in
      consume m k s r ≡ record s {
        recv_buffer = rest;
        recv_owner = true;
        log =
            (s.log ++ map Effect.on_recv_packet r.packets) ++ Effect.wsa_recv (free_size rest) ∷ [];
      }
unfolding consume
consume-lem m k s r fine c le done = ground arith

Advanced-consume :
    (m : Memcpy) (k : Kernel) (s : Session) (r : Received)
    → real_error k.wsa_recv ≡ none
    → IsOpen s
    → data_size s.recv_buffer ≤ s.recv_buffer.read_pos + r.process_len + r.process_len
    → r.process_len ≤ data_size s.recv_buffer
    → Advanced s r.packets (drop r.process_len (pending s.recv_buffer)) (consume m k s r)
Advanced-consume m k s r fine v apart le = elim (pending-on_read r.process_len s.recv_buffer) [
  | inr (lt, e) ↦ absurd (omega arith)
  | inl (h, done, e) ↦
      let after = (on_read r.process_len s.recv_buffer).0 in
      let (good, kept, free) =
        pending-clean m after (on_read-IsValid r.process_len s.recv_buffer v.valid)
          (on_read-apart r.process_len s.recv_buffer apart le) in
      rw (consume-lem m k s r fine v.is_connected le done) (record {
        open_still = record { is_connected = v.is_connected; valid = good };
        left_over = kept ∙ e;
        handed = delivered-received s.log r.packets (free_size (clean m after));
        same_capacity = capacity-clean m after ∙ capacity-on_read r.process_len s.recv_buffer;
        compact = read_pos-clean m after;
        waits = refl;
      })
]

process_recv-lem :
    (m : Memcpy) (k : Kernel) (rounds n : ℕ) (s : Session) (r : Received)
    → 0 < n
    → (on_write n s.recv_buffer).1 ≡ true
    → on_recv rounds (pending (on_write n s.recv_buffer).0) ≡ some r
    → process_recv m k rounds n s
      ≡ some (
          consume m k
            (record s { recv_owner = false; recv_buffer = (on_write n s.recv_buffer).0 })
            r)
unfolding process_recv
process_recv-lem m k rounds n s r pos fits e = ground arith

-- The state in which the completion of a `WSARecv` of these bytes finds the session.
abbrev pub with_bytes : List ℕ → Session → Session
with_bytes bytes s = record s { recv_buffer = arrive bytes s.recv_buffer }

-- A connected session that gets bytes hands to OnRecvPacket exactly the packets that the bytes
-- left over from before, and the new ones behind them, hold, in order; it keeps what is no whole
-- packet, and asks for more. The bytes fit into the free space, no header states the size 0, the
-- new `WSARecv` is accepted, and what is left over is no longer than what was read before it, so
-- that `memcpy` copies parts that do not overlap.
pub process_recv-Frames :
    (m : Memcpy) (k : Kernel) (rounds : ℕ) (bytes : List ℕ) (s : Session) {packets : List (List ℕ)}
    {tail : List ℕ}
    → real_error k.wsa_recv ≡ none
    → IsOpen s
    → 0 < length bytes
    → length bytes ≤ free_size s.recv_buffer
    → length (pending s.recv_buffer ++ bytes) < rounds
    → Frames (pending s.recv_buffer ++ bytes) packets tail
    → length tail + length tail ≤ s.recv_buffer.read_pos + length (pending s.recv_buffer ++ bytes)
    → (t : Session) × (process_recv m k rounds (length bytes) (with_bytes bytes s) ≡ some t)
      × Advanced s packets tail t
process_recv-Frames m k rounds bytes s {packets} {tail} fine v pos fits fuel f apart =
    (consume m k next r, returns, advanced)
  where
    buffer : RecvBuffer
    buffer = arrive bytes s.recv_buffer

    written : RecvBuffer
    written = (on_write (length bytes) buffer).0

    stream : List ℕ
    stream = pending s.recv_buffer ++ bytes

    r : Received
    r = record { packets = packets; process_len = length stream - length tail }

    next : Session
    next = record s { recv_owner = false; recv_buffer = written }

    wrote : ((on_write (length bytes) buffer).1 ≡ true) × (pending written ≡ stream)
    wrote = pending-on_write bytes s.recv_buffer v.valid fits

    returns :
        process_recv m k rounds (length bytes) (with_bytes bytes s) ≡ some (consume m k next r)
    returns =
        process_recv-lem m k rounds (length bytes) (with_bytes bytes s) r pos wrote.0
          (rw wrote.1 (on_recv-Frames rounds f fuel))

    valid : IsValid written
    valid = on_write-IsValid (length bytes) buffer (arrive-IsValid bytes s.recv_buffer v.valid)

    within : r.process_len ≤ data_size written
    within = omega (arith, length-pending written valid, ap length wrote.1)

    far : data_size written ≤ written.read_pos + r.process_len + r.process_len
    far = omega (
      arith,
      length-pending written valid,
      ap length wrote.1,
      apart,
      read_pos-arrived bytes s.recv_buffer,
      (Frames-tail f).0,
    )

    went : Advanced next packets (drop r.process_len (pending written)) (consume m k next r)
    went =
        Advanced-consume m k next r fine (record { is_connected = v.is_connected; valid = valid })
          far within

    capacity_kept : written.capacity ≡ s.recv_buffer.capacity
    capacity_kept = capacity-on_write (length bytes) buffer ∙ capacity-arrive bytes s.recv_buffer

    advanced : Advanced s packets tail (consume m k next r)
    advanced = record {
      open_still = went.open_still;
      handed = went.handed;
      compact = went.compact;
      waits = went.waits;
      left_over = went.left_over ∙ (rw wrote.1 (Frames-tail f).1);
      same_capacity = went.same_capacity ∙ capacity_kept;
    }
