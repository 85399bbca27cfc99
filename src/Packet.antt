-- ===== src/Packet.antt =====
-- `PacketHeader` and `PacketSession::OnRecv` of ServerCore/Session.{h,cpp}: the loop that cuts the
-- received bytes into packets.
pub mod Frames
pub mod Loop
pub mod Tests
use cplus_server_core_model.Bytes.{decode}
use cplus_server_core_model.Prelude.{
  ℕ, zero, suc, ◌+◌, ◌-◌, Option, none, some, List, [], ◌∷◌, slice, length, ltb, if◌then◌else◌,
}

-- Two `uint16`: the size of the whole packet, and the id of the protocol.
pub record PacketHeader : Type 0 where
  pub size : ℕ
  pub id : ℕ

abbrev pub header_size : ℕ
header_size = 4

-- The header that stands at a position of a buffer.
unfoldable pub read_header : List ℕ → ℕ → PacketHeader
read_header buffer pos = record {
  size = decode (slice pos 2 buffer);
  id = decode (slice (pos + 2) 2 buffer);
}

-- The packets that one call handed to `OnRecvPacket`, oldest first, and the value returned.
pub record Received : Type 0 where
  pub packets : List (List ℕ)
  pub process_len : ℕ

abbrev deliver : List ℕ → Option Received → Option Received
deliver p none = none
deliver p (some r) = some (record r { packets = p ∷ r.packets })

-- The `while (true)` from `processLen` on. `none`: the rounds ran out before a `break`.
unfoldable pub recv_loop : ℕ → List ℕ → ℕ → ℕ → Option Received
unfolding read_header
recv_loop zero buffer len process_len = none
recv_loop (suc rounds) buffer len process_len =
    let data_size = len - process_len in
    let size = (read_header buffer process_len).size in
    let rest = recv_loop rounds buffer len (process_len + size) in
    if ltb data_size header_size
    then some (record { packets = []; process_len = process_len })
    else if ltb data_size size
    then some (record { packets = []; process_len = process_len })
    else deliver (slice process_len size buffer) rest

unfoldable pub on_recv : ℕ → List ℕ → Option Received
on_recv rounds buffer = recv_loop rounds buffer (length buffer) 0
