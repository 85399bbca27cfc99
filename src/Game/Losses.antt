-- ===== src/Game/Losses.antt =====
-- How a player ends up in two rooms.
use cplus_server_core_model.Game.{World, Build, cast_all, false}
use cplus_server_core_model.Game.Rooms.{enter, enter_room, with_clients}
use cplus_server_core_model.Game.Lobbies.{join_room}
use cplus_server_core_model.Game.Infos.{HasBuffer, room_packet, inform_room_infos_lem}
use cplus_server_core_model.Prelude.{
  ℕ, find, member, false, insert, ◌≡◌, length, erase, some, true, ok, ◌≢◌, arith, refl,
  member-insert, member-erase,
}

-- Where JoinRoom brings a client when the lobby has the room.
abbrev pub joined : ℕ → ℕ → World → World
joined c r w =
    let entered = enter_room c r false (with_clients r (insert c (w.room r).clients) w) in
    let informed =
      cast_all (room_packet (length (entered.room r).clients)) (entered.room r).clients entered in
    record informed { lobby_clients = erase c w.lobby_clients }

join_room-found :
    (b : Build) (c id r : ℕ) (w : World)
    → HasBuffer b
    → find id w.rooms ≡ some r
    → join_room b c id w ≡ ok (joined c r w)
unfolding join_room enter enter_room
join_room-found b c id r w h found =
    rw
      (
        found,
        inform_room_infos_lem b r
            (enter_room c r false (with_clients r (insert c (w.room r).clients) w)) h,
      )
      refl

-- JoinRoom takes a player out of the lobby but not out of the room that the player is in: when the
-- job of a player who is in one room joins another room that the lobby has, it leaves the player
-- outside of the lobby, a client of both rooms, and with a session that knows the second only.
pub join_room-both :
    (b : Build) (c id q r : ℕ) (w : World)
    → HasBuffer b
    → member c (w.room q).clients ≡ true
    → find id w.rooms ≡ some r
    → q ≢ r
    → (v : World) × ((join_room b c id w ≡ ok v)
        × ((v.client c).room ≡ some r)
        × (member c (v.room r).clients ≡ true)
        × (member c (v.room q).clients ≡ true)
        × (member c v.lobby_clients ≡ false))
unfolding enter_room
join_room-both b c id q r w h inside found apart = (
  joined c r w,
  (
    join_room-found b c id r w h found,
    ground arith,
    ground (arith, member-insert c c (w.room r).clients),
    ground arith,
    ground (arith, member-erase c c w.lobby_clients),
  ),
)
