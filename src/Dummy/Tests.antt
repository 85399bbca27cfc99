-- ===== src/Dummy/Tests.antt =====
-- The client of a player in the lobby, who then asks for the room 9999.
use cplus_server_core_model.Game.{Build, init, cast_all}
use cplus_server_core_model.Game.Lobbies.{inform_lobby_infos}
use cplus_server_core_model.Game.Infos.{HasBuffer, lobby_packet}
use cplus_server_core_model.Dummy.{
  Console, Place, Shown, enter_key, enter_line, c_join_room, c_test_chat, true, false, ok, [], some,
  List,
}
use cplus_server_core_model.Dummy
use cplus_server_core_model.Dummy.Chat.{join-posted}
use cplus_server_core_model.FlatBuffer.Fields.{Field}
use cplus_server_core_model.FlatBuffer.Writing.{packet}
use cplus_server_core_model.Game.{LobbyJob, post_lobby, init}
use cplus_server_core_model.Game.Handlers.{handle_packet}
use cplus_server_core_model.Dummy.{Place, enter_key, c_join_room}
use cplus_server_core_model.Dummy.Lobby.{lobby-shown}
use cplus_server_core_model.Prelude.{
  ℕ, replicate, length-replicate, ◌≡◌, true, false, ◌∷◌, ◌+◌, ok, [], ◌%◌, ◌++◌, length, arith,
  List,
}

abbrev build : Build
build = record { debug = true; memory = replicate 1024 0; to_wstring = λ n. (48 + n % 10) ∷ [] }

build-HasBuffer : HasBuffer build
build-HasBuffer = length-replicate {A = ℕ} 1024 0

lobby-shown_example :
    (inform_lobby_infos build init ≡ ok (cast_all (lobby_packet init.rooms) [] init))
    × (Dummy.handle_packet false
          (lobby_packet init.rooms ++ 5 ∷ [])
          (length (lobby_packet init.rooms))
        ≡ ok (Shown.room_ids 1 (9999 ∷ []), true))
lobby-shown_example =
    lobby-shown build false init (5 ∷ []) build-HasBuffer (omega arith, tt) (omega arith)

abbrev join_packet : List ℕ
join_packet = packet c_join_room (Field.int 8 9999 ∷ [])

join-posted_example :
    (enter_key build 1 9999 (record { place = Place.lobby; joinable = true })
      ≡ ok (record { place = Place.room; joinable = true }, some join_packet))
    × (handle_packet build 7 (join_packet ++ 5 ∷ []) (length join_packet) init
        ≡ ok (post_lobby (LobbyJob.join_room 7 9999) init, true))
join-posted_example =
    join-posted build build 7 9999 (record { place = Place.lobby; joinable = true }) init (5 ∷ [])
      build-HasBuffer (omega arith)
