-- ===== src/Game/Handlers.antt =====
-- GameServer/ClientPacketHandler.{h,cpp}, and ClientSessionManager.{h,cpp} with what ClientSession passes to it.
use cplus_server_core_model.FlatBuffer.{open_reader, read_int}
use cplus_server_core_model.Packet.{read_header}
use cplus_server_core_model.Game.{
  World, Build, LobbyJob, RoomJob, update, post_lobby, post_room, no_client, ℕ, List, Bool, Option,
  false, cast_all,
}
use cplus_server_core_model.Game.Rooms.{back_to_lobby}
use cplus_server_core_model.Prelude.{
  ℕ, List, Outcome, insert, erase, assign, Bool, Option, true, Cause, ◌+◌, replicate, ok, at, false,
  none, ◌>>=◌, some, ◌%◌, stray, if◌then◌else◌, crash, ◌^◌, length,
}

-- `ClientSession::Room`: the reference that it returns is to the temporary pointer of `_room.lock()`,
-- which is destroyed before the caller reads it, so that what the caller reads is undefined.
unfoldable pub room_of : ℕ → World → Outcome (Option ℕ)
room_of c w = stray

-- `ClientSession::OnConnected`, with a session that the pool of sessions has just made.
unfoldable pub add : ℕ → World → World
add c w = record w { sessions = insert c w.sessions; client = update w.client c no_client }

-- `ClientSession::OnDisconnected`.
unfoldable pub remove : ℕ → World → Outcome World
unfolding room_of
remove c w =
    let w' = record w { sessions = erase c w.sessions } in
    room_of c w >>= λ found. ok (post_lobby (LobbyJob.remove_client c) (left found w'))
  where
    left : Option ℕ → World → World
    left none v = v
    left (some r) v = post_room r (RoomJob.on_exit_game c) v

-- `ClientSessionManager::Broadcast`.
unfoldable broadcast : List ℕ → World → World
broadcast packet w = cast_all packet w.sessions w

-- `PlayersCount` of the sessions, `GetLobbysPlayersCount` and `RoomCount`, which the main thread prints.
unfoldable counts : World → ℕ × ℕ × ℕ
counts w = (length w.sessions, length w.lobby_clients, length w.rooms)

-- The handlers; the Boolean is what they return.
unfoldable pub handle_invalid : Build → World → Outcome (World × Bool)
handle_invalid b w = if b.debug then crash handle_invalid_cause else ok (w, false)
  where
    handle_invalid_cause : Cause
    handle_invalid_cause = Cause.handle_invalid

unfoldable pub handle_enter_game : ℕ → World → World × Bool
handle_enter_game c w =
    let named = record w {
      client = update w.client c (record (w.client c) { player_id = w.players });
      players = (w.players + 1) % 2 ^ 64;
    } in
    (post_lobby (LobbyJob.accept_client c) named, true)

unfoldable pub handle_make_room : ℕ → World → World × Bool
handle_make_room c w = (post_lobby (LobbyJob.make_room c) w, true)

unfoldable pub handle_join_room : Build → ℕ → List ℕ → ℕ → World → Outcome (World × Bool)
handle_join_room b c buffer len w = do
  (room_id, reader) ← read_int b.debug 8 (open_reader buffer len)
  ok (post_lobby (LobbyJob.join_room c room_id) w, true)

unfoldable pub handle_back_to_lobby : Build → ℕ → World → Outcome (World × Bool)
unfolding room_of back_to_lobby
handle_back_to_lobby b c w = room_of c w >>= go_back
  where
    go_back : Option ℕ → Outcome (World × Bool)
    go_back none = ok (w, true)
    go_back (some r) = back_to_lobby b r c w >>= λ w'. ok (w', true)

unfoldable pub handle_test_chat : ℕ → ℕ → World → Outcome (World × Bool)
unfolding room_of
handle_test_chat c len w = room_of c w >>= λ found. ok (say found, true)
  where
    say : Option ℕ → World
    say none = w
    say (some r) = post_room r (RoomJob.test_chat (w.client c).player_id len) w

pub data Handler : Type 0 where
  invalid enter_game make_room join_room back_to_the_lobby test_chat keep_alive : Handler

-- `Init`, on a table of this many entries.
unfoldable pub init_handlers : ℕ → List Handler
init_handlers entries = assign 6 keep_alive (
    assign 5 test_chat (
      assign 4 back_to_the_lobby (
        assign 3 join_room (assign 2 make_room (assign 1 enter_game (replicate entries invalid))))))

-- UINT16_MAX.
abbrev pub handler_count : ℕ
handler_count = 65535

unfoldable pub call : Handler → Build → ℕ → List ℕ → ℕ → World → Outcome (World × Bool)
unfolding handle_invalid handle_enter_game handle_make_room handle_join_room handle_back_to_lobby
    handle_test_chat
call invalid b c buffer len w = handle_invalid b w
call enter_game b c buffer len w = ok (handle_enter_game c w)
call make_room b c buffer len w = ok (handle_make_room c w)
call join_room b c buffer len w = handle_join_room b c buffer len w
call back_to_the_lobby b c buffer len w = handle_back_to_lobby b c w
call test_chat b c buffer len w = handle_test_chat c len w
call keep_alive b c buffer len w = ok (w, true)

-- `HandlePacket`, and `ClientSession::OnRecvPacket`; an id past the table is outside of the array.
unfoldable pub handle_packet : Build → ℕ → List ℕ → ℕ → World → Outcome (World × Bool)
unfolding call init_handlers
handle_packet b c buffer len w = elim (at (read_header buffer 0).id (init_handlers handler_count)) [
  | none ↦ stray
  | some handler ↦ call handler b c buffer len w
]
