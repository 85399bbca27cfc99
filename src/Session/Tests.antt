-- ===== src/Session/Tests.antt =====
-- A client's connection that gets two packets in two completions, and sends one buffer.
use cplus_server_core_model.Bytes.{decode}
use cplus_server_core_model.Packet.Frames.{Frames, IsPacket}
use cplus_server_core_model.Recv.{RecvBuffer, IsValid, free_size, pending, data_size}
use cplus_server_core_model.Recv.Tests.{moving}
use cplus_server_core_model.Session.{
  Session, Kernel, CallResult, ServiceType, process_recv, process_send, process_connect, send, make,
  true, [], List, ◌++◌, ◌∷◌,
}
use cplus_server_core_model.Session.Effects.{posted}
use cplus_server_core_model.Session.Sending.{IsSound}
use cplus_server_core_model.Session.Receiving.{IsOpen, Advanced, with_bytes, process_recv-Frames}
use cplus_server_core_model.Session.Stream.{IsReady, Cut, Ended, receive_all, receive_all-concat}
use cplus_server_core_model.Session.Order.{Run, Step, Run-in_order, send_all, send_after_reconnect}
use cplus_server_core_model.Prelude.{
  true, replicate, arith, [], List, ◌++◌, ◌∷◌, refl, false, length-replicate, ℕ, ◌≡◌, some,
}

abbrev willing : Kernel
willing = record {
  set_reuse_address = true;
  bind_any_address = true;
  connect_ex = CallResult.success;
  disconnect_ex = CallResult.success;
  wsa_recv = CallResult.success;
  wsa_send = CallResult.success;
}

abbrev small_buffer : RecvBuffer
small_buffer = record {
  capacity = 20;
  buffer_size = 2;
  read_pos = 0;
  write_pos = 0;
  buffer = replicate 20 0;
}

abbrev connected_session : Session
connected_session = record {
  service = ServiceType.client;
  connected = true;
  recv_buffer = small_buffer;
  send_queue = [];
  send_registered = true;
  connect_owner = false;
  disconnect_owner = false;
  recv_owner = true;
  send_owner = true;
  send_buffers = (4 ∷ 0 ∷ 2 ∷ 0 ∷ []) ∷ [];
  log = [];
}

small_buffer-IsValid : IsValid small_buffer
small_buffer-IsValid = record {
  order = omega arith;
  within = omega arith;
  sized = length-replicate {A = ℕ} 20 0;
}

connected_session-IsOpen : IsOpen connected_session
connected_session-IsOpen = record { is_connected = refl; valid = small_buffer-IsValid }

connected_session-IsReady : IsReady 20 [] connected_session
unfolding pending data_size
connected_session-IsReady = record {
  is_open = connected_session-IsOpen;
  waits = refl;
  compact = refl;
  has_left = refl;
  has_room = refl;
}

abbrev packet : List ℕ
packet = 4 ∷ 0 ∷ 1 ∷ 0 ∷ []

packet-IsPacket : IsPacket packet
unfolding decode
packet-IsPacket = record { has_header = omega arith; states_length = omega arith }

packet-Frames : (n : ℕ) → Frames (packet ++ n ∷ []) (packet ∷ []) (n ∷ [])
unfolding decode
packet-Frames n =
    Frames.packet {bytes = packet ++ n ∷ []} (omega arith) (omega arith) (omega arith)
      (Frames.short (omega arith))

-- Two packets and the beginning of a third; the completions bring five bytes and four.
cut-example :
    Cut 20 []
      ((packet ++ 4 ∷ []) ∷ (0 ∷ 1 ∷ 0 ∷ 5 ∷ []) ∷ [])
      ((packet ∷ []) ++ ((packet ∷ []) ++ []))
      (5 ∷ [])
cut-example =
    Cut.chunk {left = []} {ps = packet ∷ []} {tail = 4 ∷ []} (omega arith) (omega arith)
      (packet-Frames 4) (omega arith)
      (Cut.chunk {left = 4 ∷ []} {ps = packet ∷ []} {tail = 5 ∷ []} (omega arith) (omega arith)
        (packet-Frames 5) (omega arith) Cut.done)

receive_all-concat_example :
    (t : Session) × (receive_all moving willing 21
        ((packet ++ 4 ∷ []) ∷ (0 ∷ 1 ∷ 0 ∷ 5 ∷ []) ∷ [])
        connected_session
      ≡ some t)
    × Ended connected_session (packet ∷ packet ∷ []) (5 ∷ []) t
receive_all-concat_example =
    receive_all-concat moving willing 21 refl (omega arith) (packet-IsPacket, (packet-IsPacket, tt))
      (Frames.short (omega arith)) refl cut-example connected_session connected_session-IsReady

process_recv-Frames_example :
    (t : Session) × (process_recv moving willing 21 5
        (with_bytes (packet ++ 5 ∷ []) connected_session)
      ≡ some t)
    × Advanced connected_session (packet ∷ []) (5 ∷ []) t
unfolding pending data_size free_size
process_recv-Frames_example =
    process_recv-Frames moving willing 21 (packet ++ 5 ∷ []) connected_session refl
      connected_session-IsOpen (omega arith) (omega arith) (omega arith) (packet-Frames 5)
      (omega arith)

-- A session that connects, accepts one buffer and queues another behind it.
two_sent-Run : Run (make ServiceType.client) (([] ++ packet ∷ []) ++ (5 ∷ []) ∷ []) (
    send willing (5 ∷ []) (send willing packet (process_connect willing (make ServiceType.client))))
unfolding make process_connect send
two_sent-Run =
    Run.next
      (Run.next (Run.next Run.start (Step.connects willing)) (Step.sends willing packet refl))
      (Step.sends willing (5 ∷ []) refl)

Run-in_order_example :
    let s =
      send willing
        (5 ∷ [])
        (send willing packet (process_connect willing (make ServiceType.client))) in
    (posted s.log ++ s.send_queue ≡ packet ∷ (5 ∷ []) ∷ []) × IsSound s
Run-in_order_example = Run-in_order ServiceType.client two_sent-Run

send_after_reconnect_example :
    let t = process_connect willing (process_send willing 0 connected_session) in
    (send_all willing (packet ∷ []) t).log ≡ t.log
send_after_reconnect_example = send_after_reconnect willing (packet ∷ []) connected_session refl
