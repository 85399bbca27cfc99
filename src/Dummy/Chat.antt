-- ===== src/Dummy/Chat.antt =====
-- What the server does when the client's user asks for a room.
use cplus_server_core_model.Bytes.{encode, length-encode}
use cplus_server_core_model.FlatBuffer.{open_reader}
use cplus_server_core_model.FlatBuffer.Fields.{Field, body, AreFields}
use cplus_server_core_model.FlatBuffer.Writing.{packet, write_packet-packet}
use cplus_server_core_model.FlatBuffer.Reading.{read_int-Ahead, open_reader-Ahead}
use cplus_server_core_model.Game.{World, Build, LobbyJob, post_lobby}
use cplus_server_core_model.Game.Infos.{HasBuffer}
use cplus_server_core_model.Game.Dispatch.{handle_packet-packet}
use cplus_server_core_model.Game.Handlers.{handle_join_room, call, handle_packet}
use cplus_server_core_model.Dummy.{
  Console, Place, enter_key, make_packet, c_join_room, [], ok, some, true,
}
use cplus_server_core_model.FlatBuffer.Reading.{Ahead-left}
use cplus_server_core_model.Prelude.{
  true, append-nil, ◌++◌, ◌≡◌, ℕ, List, ◌+◌, ◌<◌, length, ◌^◌, ◌≤◌, ◌∷◌, ◌≡◌, [], ok, arith, some,
  ◌++◌, true, ◌∙◌, refl,
}

pub make_packet_lem :
    (b : Build) (id : ℕ) (fs : List Field)
    → HasBuffer b
    → AreFields fs
    → 4 + length (body fs) ≤ 1024
    → make_packet b id fs ≡ ok (packet id fs)
unfolding make_packet
make_packet_lem b id fs h valid fits =
    rw h at (write_packet-packet b.debug id fs b.memory valid (omega arith) (omega arith))

-- The packet of a client whose user asked for a room, by the key 1 and the room's id, makes the
-- server post JoinRoom with that client and that id to the lobby, and the client waits in the
-- loop of a room, in debug and release builds of either side and whatever stands behind the packet.
pub join-posted :
    (b b' : Build) (c room_id : ℕ) (s : Console) (w : World) (behind : List ℕ)
    → HasBuffer b
    → room_id < 2 ^ 64
    → let p = packet c_join_room (Field.int 8 room_id ∷ []) in
      (enter_key b 1 room_id s ≡ ok (record s { place = Place.room }, some p))
      × (handle_packet b' c (p ++ behind) (length p) w
          ≡ ok (post_lobby (LobbyJob.join_room c room_id) w, true))
unfolding enter_key call handle_join_room
join-posted b b' c room_id s w behind h valid = (
  rw (make_packet_lem b c_join_room fs h (omega arith, tt) (omega (arith, n))) refl,
  handle_packet-packet b' c c_join_room fs behind (length p) w (omega arith)
      ∙ rw
          (read_int-Ahead b'.debug 8 room_id ([] ++ behind) (open_reader (p ++ behind) (length p))
            (omega arith)
            (Ahead-left (encode 8 room_id) [] behind _
              (open_reader-Ahead c_join_room fs behind (omega (arith, n)))))
          refl,
)
  where
    fs : List Field
    fs = Field.int 8 room_id ∷ []

    p : List ℕ
    p = packet c_join_room fs

    n : length (body fs) ≡ 8
    n = rw append-nil (length-encode 8 room_id)
