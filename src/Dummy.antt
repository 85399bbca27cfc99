-- ===== src/Dummy.antt =====
-- DummyClient: the console client, in DummyClient/DummyClient.cpp, DummyClient/ServerSession.cpp and
-- DummyClient/ServerPacketHandler.{h,cpp}. `Service::Broadcast` hands a packet to the sessions, of which the
-- client has one; here it is the packet that comes out. A build's send buffers and checks are those of the server's library.
pub mod Lobby
pub mod Chat
pub mod Tests
use cplus_server_core_model.FlatBuffer.{Reader, open_reader, read_int, read_wstring}
use cplus_server_core_model.FlatBuffer.Fields.{Field}
use cplus_server_core_model.FlatBuffer.Writing.{write_packet}
use cplus_server_core_model.Game.{Build, buffer_size}
use cplus_server_core_model.Packet.{read_header}
use cplus_server_core_model.Prelude.{
  ℕ, List, Outcome, [], Bool, Option, ◌∷◌, if◌then◌else◌, true, ok, ◌>>=◌, ◌==◌, false, none, suc,
  some, ◌&&◌, zero, crash, assign, at, Cause, replicate, stray,
}

-- The ids of ServerCore/Protocol.h that the client sends.
abbrev pub c_enter_game : ℕ
c_enter_game = 1

abbrev pub c_make_room : ℕ
c_make_room = 2

abbrev pub c_join_room : ℕ
c_join_room = 3

abbrev pub c_back_to_lobby : ℕ
c_back_to_lobby = 4

abbrev pub c_test_chat : ℕ
c_test_chat = 5

-- A send buffer with these fields.
unfoldable pub make_packet : Build → ℕ → List Field → Outcome (List ℕ)
make_packet b id fs = write_packet b.debug buffer_size id fs b.memory

-- `ServerSession::OnConnected`.
unfoldable on_connected : Build → Outcome (List ℕ)
unfolding make_packet
on_connected b = make_packet b c_enter_game []

-- Where the main thread is: at the label Lobby, at the label Room, or in `join` of the thread that
-- runs DoBlabber, which never returns.
pub data Place : Type 0 where
  lobby room joining : Place

pub record Console : Type 0 where
  pub place : Place
  pub joinable : Bool

-- One round of the loop at Lobby: the key, and the room id that the key 1 asks for.
unfoldable pub enter_key : Build → ℕ → ℕ → Console → Outcome (Console × Option (List ℕ))
unfolding make_packet
enter_key b int_key room_id s =
    let asked = λ (p : List ℕ). ok (record s { place = room }, some p) in
    let make = make_packet b c_make_room [] >>= asked in
    let join = make_packet b c_join_room (Field.int 8 room_id ∷ []) >>= asked in
    if int_key == 0 then make else if int_key == 1 then join else ok (s, none)

abbrev pub same_text : List ℕ → List ℕ → Bool
same_text [] [] = true
same_text [] (d ∷ ds) = false
same_text (c ∷ cs) [] = false
same_text (c ∷ cs) (d ∷ ds) = c == d && same_text cs ds

-- L"Blabber" and L"Exit_Room".
abbrev pub blabber : List ℕ
blabber = 66 ∷ 108 ∷ 97 ∷ 98 ∷ 98 ∷ 101 ∷ 114 ∷ []

abbrev pub exit_room : List ℕ
exit_room = 69 ∷ 120 ∷ 105 ∷ 116 ∷ 95 ∷ 82 ∷ 111 ∷ 111 ∷ 109 ∷ []

-- The packet that `DoBlabber` broadcasts every 20 milliseconds.
unfoldable do_blabber : Build → Outcome (List ℕ)
unfolding make_packet
do_blabber b = make_packet b c_test_chat (Field.text blabber ∷ [])

-- One round of the loop at Room.
unfoldable pub enter_line : Build → List ℕ → Console → Outcome (Console × Option (List ℕ))
unfolding make_packet
enter_line b input s =
    let after_exit = if s.joinable then joining else lobby in
    let exited = λ (p : List ℕ). ok (record s { place = after_exit }, some p) in
    let exit = make_packet b c_back_to_lobby [] >>= exited in
    let said = λ (p : List ℕ). ok (s, some p) in
    let chat = make_packet b c_test_chat (Field.text input ∷ []) >>= said in
    if same_text input blabber
    then ok (record s { joinable = true }, none)
    else if same_text input exit_room
    then exit
    else chat

-- What a handler puts on the screen.
pub data Shown : Type 0 where
  nothing : Shown
  room_ids : (room_count : ℕ) (ids : List ℕ) → Shown
  players : (count : ℕ) → Shown
  chat : (text : List ℕ) → Shown

-- The loop over the rooms.
unfoldable pub read_ids : Bool → ℕ → Reader → Outcome (List ℕ)
read_ids debug zero r = ok []
read_ids debug (suc n) r = do
  (id, r') ← read_int debug 8 r
  rest ← read_ids debug n r'
  ok (id ∷ rest)

unfoldable pub handle_inform_lobby_infos : Bool → List ℕ → ℕ → Outcome (Shown × Bool)
unfolding read_ids
handle_inform_lobby_infos debug buffer len = do
  (room_count, r) ← read_int debug 4 (open_reader buffer len)
  ids ← read_ids debug room_count r
  ok (room_ids room_count ids, true)

unfoldable pub handle_inform_room_infos : Bool → List ℕ → ℕ → Outcome (Shown × Bool)
handle_inform_room_infos debug buffer len = do
  (count, r) ← read_int debug 4 (open_reader buffer len)
  ok (players count, true)

unfoldable pub handle_test_chat : Bool → List ℕ → ℕ → Outcome (Shown × Bool)
handle_test_chat debug buffer len = do
  (text, r) ← read_wstring debug (open_reader buffer len)
  ok (chat text, true)

unfoldable handle_invalid : Outcome (Shown × Bool)
handle_invalid = crash Cause.handle_invalid

pub data Handler : Type 0 where
  invalid enter_game inform_lobby_infos inform_room_infos test_chat : Handler

-- `ServerPacketHandler::Init`, on a table of this many entries.
unfoldable pub init_handlers : ℕ → List Handler
init_handlers entries = assign 4 test_chat (
    assign 3 inform_room_infos
      (assign 2 inform_lobby_infos (assign 1 enter_game (replicate entries invalid))))

unfoldable pub call : Handler → Bool → List ℕ → ℕ → Outcome (Shown × Bool)
unfolding handle_invalid handle_inform_lobby_infos handle_inform_room_infos handle_test_chat
call invalid debug buffer len = handle_invalid
call enter_game debug buffer len = ok (nothing, true)
call inform_lobby_infos debug buffer len = handle_inform_lobby_infos debug buffer len
call inform_room_infos debug buffer len = handle_inform_room_infos debug buffer len
call test_chat debug buffer len = handle_test_chat debug buffer len

-- `HandlePacket`, and `ServerSession::OnRecvPacket`; the table has UINT16_MAX entries.
unfoldable pub handle_packet : Bool → List ℕ → ℕ → Outcome (Shown × Bool)
unfolding call init_handlers
handle_packet debug buffer len = elim (at (read_header buffer 0).id (init_handlers 65535)) [
  | none ↦ stray
  | some handler ↦ call handler debug buffer len
]
