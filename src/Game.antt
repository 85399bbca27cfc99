-- ===== src/Game.antt =====
-- GameServer: the lobby, the rooms and the players, in GameServer/Lobby.{h,cpp}, GameServer/Room.{h,cpp},
-- GameServer/ClientSession.{h,cpp}, GameServer/ClientSessionManager.{h,cpp} and
-- GameServer/ClientPacketHandler.{h,cpp}. A client session and a room are numbers: their pointers, by which
-- the sets are ordered. Jobs run one at a time in the order of their queue, as JobQueue
-- shows, so that a queue is the list of its jobs, and each call runs without interruption.
pub mod Rooms
pub mod Lobbies
pub mod Handlers
pub mod Infos
pub mod Dispatch
pub mod Losses
pub mod Tests
use Prim.Native.Nat.{ℕ}
use Prim.Native.String.{[]}
use cplus_server_core_model.Prelude.{
  ℕ, List, Bool, false, [], ◌++◌, Option, none, if◌then◌else◌, map, ◌∷◌, ◌==◌,
}

-- The ids of ServerCore/Protocol.h that the server sends.
abbrev pub s_inform_lobby_infos : ℕ
s_inform_lobby_infos = 2

abbrev pub s_inform_room_infos : ℕ
s_inform_room_infos = 3

abbrev pub s_test_chat : ℕ
s_test_chat = 4

-- `ClientSession`: `_room` is weak.
pub record Client : Type 0 where
  pub player_id : ℕ
  pub is_master_client : Bool
  pub room : Option ℕ

pub record Room : Type 0 where
  pub room_id : ℕ
  pub clients : List ℕ

-- What is posted to the queue of the lobby.
pub data LobbyJob : Type 0 where
  accept_client remove_client make_room : (client : ℕ) → LobbyJob
  join_room : (client room_id : ℕ) → LobbyJob
  remove_room : (room_id : ℕ) → LobbyJob

-- What is posted to the queue of a room. The chat's text stays where it was received.
pub data RoomJob : Type 0 where
  on_exit_game : (client : ℕ) → RoomJob
  test_chat : (player_id len : ℕ) → RoomJob

-- `rooms` is `_rooms` of the lobby, by id, and `room` the room at a pointer, of which `room_count`
-- were made. `sent` has the calls of Send, in order.
pub record World : Type 0 where
  pub sessions : List ℕ
  pub client : ℕ → Client
  pub lobby_clients : List ℕ
  pub rooms : List (ℕ × ℕ)
  pub room : ℕ → Room
  pub room_count : ℕ
  pub lobby_jobs : List LobbyJob
  pub room_jobs : ℕ → List RoomJob
  pub players : ℕ
  pub sent : List (ℕ × List ℕ)

-- The build, what the 1024 bytes of a new send buffer hold, and `std::to_wstring`.
pub record Build : Type 0 where
  pub debug : Bool
  pub memory : List ℕ
  pub to_wstring : ℕ → List ℕ

abbrev pub buffer_size : ℕ
buffer_size = 1024

abbrev pub no_client : Client
no_client = record { player_id = 0; is_master_client = false; room = none }

-- After `Lobby::Init`, with the lobby's room for tests.
abbrev pub init : World
init = record {
  sessions = [];
  client = λ c. no_client;
  lobby_clients = [];
  rooms = (9999, 0) ∷ [];
  room = λ r. record { room_id = 9999; clients = [] };
  room_count = 1;
  lobby_jobs = [];
  room_jobs = λ r. [];
  players = 1;
  sent = [];
}

abbrev pub update {ℓ} : {A : Type ℓ} → (ℕ → A) → ℕ → A → ℕ → A
update f k a j = if j == k then a else f j

-- `CastAll`, and the same loop in the other broadcasts.
abbrev pub cast_all : List ℕ → List ℕ → World → World
cast_all packet clients w = record w { sent = w.sent ++ map (λ c. (c, packet)) clients }

abbrev pub post_lobby : LobbyJob → World → World
post_lobby job w = record w { lobby_jobs = w.lobby_jobs ++ job ∷ [] }

abbrev pub post_room : ℕ → RoomJob → World → World
post_room r job w = record w { room_jobs = update w.room_jobs r (w.room_jobs r ++ job ∷ []) }
