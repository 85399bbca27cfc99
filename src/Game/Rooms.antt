-- ===== src/Game/Rooms.antt =====
-- GameServer/Room.{h,cpp}.
use cplus_server_core_model.FlatBuffer.{open_reader, read_wstring}
use cplus_server_core_model.FlatBuffer.Fields.{Field}
use cplus_server_core_model.FlatBuffer.Writing.{write_packet}
use cplus_server_core_model.Game.{
  World, Build, LobbyJob, buffer_size, s_inform_room_infos, s_test_chat, update, cast_all,
  post_lobby, ℕ, List, Bool, none, [],
}
use cplus_server_core_model.Prelude.{
  ℕ, List, Outcome, Bool, none, ◌∷◌, some, insert, erase, [], ◌>>=◌, length, ok, ◌++◌, ◌%◌, ◌^◌,
}

unfoldable pub inform_room_infos : Build → ℕ → World → Outcome World
inform_room_infos b r w = do
  let clients = (w.room r).clients
  packet ←
      write_packet b.debug buffer_size s_inform_room_infos
        (Field.int 4 (length clients % 2 ^ 32) ∷ []) b.memory
  ok (cast_all packet clients w)

-- `ClientSession::EnterRoom`.
unfoldable pub enter_room : ℕ → ℕ → Bool → World → World
enter_room c r is_master w = record w {
  client = update w.client c (record (w.client c) { room = some r; is_master_client = is_master });
}

-- `ClientSession::OnExitRoom`.
unfoldable pub on_exit_room : ℕ → World → World
on_exit_room c w = record w { client = update w.client c (record (w.client c) { room = none }) }

abbrev pub with_clients : ℕ → List ℕ → World → World
with_clients r clients w = record w {
  room = update w.room r (record (w.room r) { clients = clients });
}

unfoldable pub enter : Build → ℕ → ℕ → Bool → World → Outcome World
unfolding enter_room inform_room_infos
enter b r c is_master w =
    inform_room_infos b r
      (enter_room c r is_master (with_clients r (insert c (w.room r).clients) w))

-- What OnExitGame and BackToLobby share.
unfoldable pub leave : Build → ℕ → ℕ → World → Outcome World
unfolding on_exit_room inform_room_infos
leave b r c w =
    let left = on_exit_room c (with_clients r (erase c (w.room r).clients) w) in
    let informed = inform_room_infos b r left in
    elim (left.room r).clients [
      | [] ↦ ok (post_lobby (LobbyJob.remove_room (left.room r).room_id) left)
      | d ∷ ds ↦ informed
    ]

unfoldable pub on_exit_game : Build → ℕ → ℕ → World → Outcome World
unfolding leave
on_exit_game b r c w = leave b r c w

unfoldable pub back_to_lobby : Build → ℕ → ℕ → World → Outcome World
unfolding leave
back_to_lobby b r c w = do w' ← leave b r c w; ok (post_lobby (LobbyJob.accept_client c) w')

-- L"PlayerId(" and L")\t:\t".
abbrev pub chat_open : List ℕ
chat_open = 80 ∷ 108 ∷ 97 ∷ 121 ∷ 101 ∷ 114 ∷ 73 ∷ 100 ∷ 40 ∷ []

abbrev pub chat_close : List ℕ
chat_close = 41 ∷ 9 ∷ 58 ∷ 9 ∷ []

-- `contents` stands at the job's pointer when the job runs.
unfoldable pub test_chat : Build → ℕ → ℕ → List ℕ → ℕ → World → Outcome World
test_chat b r player_id contents len w = do
  (recv_wstr, reader) ← read_wstring b.debug (open_reader contents len)
  let send_wstr = chat_open ++ (b.to_wstring player_id ++ (chat_close ++ recv_wstr))
  packet ← write_packet b.debug buffer_size s_test_chat (Field.text send_wstr ∷ []) b.memory
  ok (cast_all packet (w.room r).clients w)
