-- ===== src/Game/Lobbies.antt =====
-- GameServer/Lobby.{h,cpp}.
use cplus_server_core_model.FlatBuffer.Fields.{Field}
use cplus_server_core_model.FlatBuffer.Writing.{write_packet}
use cplus_server_core_model.Game.{
  World, Build, buffer_size, s_inform_lobby_infos, update, cast_all, List, ℕ, Option, [], map,
  false,
}
use cplus_server_core_model.Game.Rooms.{enter}
use cplus_server_core_model.Prelude.{
  List, Outcome, ℕ, length, insert, erase, store, true, erase_key, ◌%◌, Option, ◌>>=◌, ◌^◌, ok,
  find, [], ◌+◌, some, ◌∷◌, map, false, none,
}

abbrev pub lobby_fields : List (ℕ × ℕ) → List Field
lobby_fields rooms = Field.int 4 (length rooms % 2 ^ 32) ∷ map (λ r. Field.int 8 r.0) rooms

unfoldable pub inform_lobby_infos : Build → World → Outcome World
inform_lobby_infos b w = do
  packet ← write_packet b.debug buffer_size s_inform_lobby_infos (lobby_fields w.rooms) b.memory
  ok (cast_all packet w.lobby_clients w)

unfoldable pub accept_client : Build → ℕ → World → Outcome World
unfolding inform_lobby_infos
accept_client b c w = inform_lobby_infos b (record w { lobby_clients = insert c w.lobby_clients })

unfoldable pub remove_client : Build → ℕ → World → Outcome World
unfolding inform_lobby_infos
remove_client b c w = inform_lobby_infos b (record w { lobby_clients = erase c w.lobby_clients })

-- `_rooms[id] = ObjectPool<Room>::MakeShared(id)`.
unfoldable pub new_room : ℕ → World → World
new_room id w = record w {
  rooms = store id w.room_count w.rooms;
  room = update w.room w.room_count (record { room_id = id; clients = [] });
  room_count = w.room_count + 1;
}

unfoldable pub make_room : Build → ℕ → World → Outcome World
unfolding inform_lobby_infos enter new_room
make_room b c w = elim (find masters_id w.rooms) [
  | some r ↦ inform_lobby_infos b w
  | none ↦ entered >>= λ w'.
      inform_lobby_infos b (record w' { lobby_clients = erase c w'.lobby_clients })
]
  where
    masters_id : ℕ
    masters_id = (w.client c).player_id

    entered : Outcome World
    entered = enter b w.room_count c true (new_room masters_id w)

unfoldable pub join_room : Build → ℕ → ℕ → World → Outcome World
unfolding enter
join_room b c room_id w = do
  w' ← joined (find room_id w.rooms)
  ok (record w' { lobby_clients = erase c w'.lobby_clients })
  where
    joined : Option ℕ → Outcome World
    joined none = ok w
    joined (some r) = enter b r c false w

unfoldable pub remove_room : Build → ℕ → World → Outcome World
unfolding inform_lobby_infos
remove_room b room_id w = inform_lobby_infos b (record w { rooms = erase_key room_id w.rooms })

-- `GetAllRoomsPlayersCount`, a uint64.
abbrev pub sum_players : World → List (ℕ × ℕ) → ℕ
sum_players w [] = 0
sum_players w ((id, r) ∷ rooms) = length (w.room r).clients + sum_players w rooms

unfoldable pub get_all_rooms_players_count : World → ℕ
get_all_rooms_players_count w = sum_players w w.rooms % 2 ^ 64
