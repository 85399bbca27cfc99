-- ===== src/Game/Tests.antt =====
-- A server whose first player has made a room, and joins the lobby's first room too.
use cplus_server_core_model.Game.{World, Build, init, cast_all, [], false}
use cplus_server_core_model.Game.Lobbies.{inform_lobby_infos, new_room, join_room}
use cplus_server_core_model.Game.Rooms.{enter_room, with_clients}
use cplus_server_core_model.Game.Handlers.{add, handle_make_room}
use cplus_server_core_model.Game.Infos.{
  HasBuffer, room_packet, lobby_packet, inform_lobby_infos-bounds,
}
use cplus_server_core_model.Game.Losses.{join_room-both}
use cplus_server_core_model.Prelude.{
  ℕ, replicate, store, length-replicate, member, true, ◌≡◌, [], ◌∷◌, ok, arith, ◌↔◌, refl, ◌≤◌,
  false,
}
use mathlib.Core.Option.{some}

abbrev build : Build
build = record { debug = true; memory = replicate 1024 0; to_wstring = λ n. n ∷ [] }

build-HasBuffer : HasBuffer build
build-HasBuffer = length-replicate {A = ℕ} 1024 0

-- The player 7 connects and asks for a room.
abbrev asked : World
asked = (handle_make_room 7 (add 7 init)).0

-- The lobby's queue, run for the job.
abbrev entered : World
entered =
    enter_room 7 1 true (with_clients 1 (7 ∷ []) (new_room 0 (record asked { lobby_jobs = [] })))

abbrev informed : World
informed = cast_all (room_packet 1) (7 ∷ []) entered

abbrev made : World
made = cast_all (lobby_packet informed.rooms) [] (record informed { lobby_clients = [] })

inform_lobby_infos-bounds_example :
    ((v : World) × (inform_lobby_infos build init ≡ ok v)) ↔ (1 ≤ 127)
inform_lobby_infos-bounds_example =
    inform_lobby_infos-bounds build init build-HasBuffer (omega arith, tt)

-- The player of the room 1 joins the lobby's first room too.
join_room-both_example :
    (v : World) × ((join_room build 7 9999 made ≡ ok v)
      × ((v.client 7).room ≡ some 0)
      × (member 7 (v.room 0).clients ≡ true)
      × (member 7 (v.room 1).clients ≡ true)
      × (member 7 v.lobby_clients ≡ false))
unfolding enter_room new_room store handle_make_room add
join_room-both_example =
    join_room-both build 7 9999 1 0 made build-HasBuffer refl refl (ground arith)
