-- ===== src/Dummy/Lobby.antt =====
-- The client and the lobby: what the client shows of a lobby, and what the server does with the
-- client's wish to join a room.
use cplus_server_core_model.Bytes.{encode, length-encode}
use cplus_server_core_model.FlatBuffer.{Reader, read_int, open_reader}
use cplus_server_core_model.FlatBuffer.Fields.{Field, body}
use cplus_server_core_model.FlatBuffer.Writing.{packet}
use cplus_server_core_model.FlatBuffer.Reading.{
  Ahead, Ahead-left, Ahead-right, moved, read_int-Ahead, open_reader-Ahead,
}
use cplus_server_core_model.Packet.{read_header}
use cplus_server_core_model.Game.{World, Build, cast_all, s_inform_lobby_infos}
use cplus_server_core_model.Game.Lobbies.{inform_lobby_infos, lobby_fields}
use cplus_server_core_model.Game.Infos.{
  HasBuffer, HaveIds, ids, lobby_packet, inform_lobby_infos_lem, length-lobby_fields,
}
use cplus_server_core_model.Game.Dispatch.{read_header-packet}
use cplus_server_core_model.Dummy.{
  call, Shown, Handler, read_ids, handle_inform_lobby_infos, handle_packet, init_handlers, Bool, ok,
  some, none, replicate, Option, true, stray,
}
use cplus_server_core_model.Prelude.{
  [], ◌∷◌, replicate, ℕ, List, Outcome, at, assign, ◌<◌, if◌then◌else◌, Bool, ◌≡◌, length, ◌==◌,
  ltb, ok, map, some, none, IsTable, assign-IsTable, replicate, length-replicate, ◌++◌, ◌≤◌,
  at-replicate, arith, Option, true, ◌%◌, stray, refl, ap, ◌^◌, ◌∙◌,
}

-- The client's handlers by the ids of ServerCore/Protocol.h.
abbrev pub shown_by : ℕ → Handler
shown_by id =
    if id == 1
    then Handler.enter_game
    else if id == 2
    then Handler.inform_lobby_infos
    else if id == 3
    then Handler.inform_room_infos
    else if id == 4
    then Handler.test_chat
    else Handler.invalid

pub at-init_handlers :
    (id entries : ℕ)
    → 4 < entries
    → at id (init_handlers entries) ≡ (if ltb id entries then some (shown_by id) else none)
unfolding init_handlers
at-init_handlers id entries h = ground (arith, table.1 id)
  where
    step :
        (n : ℕ) (a : Handler) (f : ℕ → Handler) (xs : List Handler)
        → n < entries
        → IsTable entries f xs
        → IsTable entries (λ i. if i == n then a else f i) (assign n a xs)
    step n a f xs small t = assign-IsTable entries n a f xs small t

    fresh : IsTable entries (λ i. Handler.invalid) (replicate entries Handler.invalid)
    fresh = (length-replicate entries Handler.invalid, λ i. at-replicate i entries Handler.invalid)

    table :
        IsTable entries
          (λ i.
            if i == 4
            then Handler.test_chat
            else if i == 3
            then Handler.inform_room_infos
            else if i == 2
            then Handler.inform_lobby_infos
            else if i == 1
            then Handler.enter_game
            else Handler.invalid)
          (init_handlers entries)
    table = step 4 Handler.test_chat _ _ h (
        step 3 Handler.inform_room_infos _ _ (omega arith) (
          step 2 Handler.inform_lobby_infos _ _ (omega arith)
            (step 1 Handler.enter_game _ _ (omega arith) fresh)))

pub read_ids-Ahead :
    (debug : Bool) (rooms : List (ℕ × ℕ)) (more : List ℕ) (r : Reader)
    → HaveIds rooms
    → Ahead (body (ids rooms)) more r
    → read_ids debug (length rooms) r ≡ ok (map (λ r. r.0) rooms)
unfolding read_ids
read_ids-Ahead debug [] more r known a = refl
read_ids-Ahead debug ((id, room) ∷ rooms) more r known a =
    rw
      (
        read_int-Ahead debug 8 id (body (ids rooms) ++ more) r (omega (arith, known.0))
            (Ahead-left (encode 8 id) (body (ids rooms)) more r a),
        ← length-encode 8 id,
        read_ids-Ahead debug rooms more (moved (length (encode 8 id)) r) known.1
            (Ahead-right (encode 8 id) (body (ids rooms)) more r a),
      )
      refl

-- A packet shown by the client.
pub handle_packet-packet :
    (debug : Bool) (id : ℕ) (fs : List Field) (behind : List ℕ) (len : ℕ)
    → id < 65535
    → handle_packet debug (packet id fs ++ behind) len
      ≡ call (shown_by id) debug (packet id fs ++ behind) len
unfolding handle_packet
handle_packet-packet debug id fs behind len h = ap answer e
  where
    buffer : List ℕ
    buffer = packet id fs ++ behind

    answer : Option Handler → Outcome (Shown × Bool)
    answer found = elim found [ none ↦ stray | some handler ↦ call handler debug buffer len ]

    e : at (read_header buffer 0).id (init_handlers 65535) ≡ some (shown_by id)
    e =
        let known : ltb id 65535 ≡ true = ground arith in
        rw (read_header-packet id fs behind (omega arith))
          (rw known at (at-init_handlers id 65535 (omega arith)))

-- A client shows the number and the ids of all rooms of the lobby, as the lobby's packet brought
-- them, in debug and release builds of either side and whatever stands behind the packet in the
-- receive buffer, if the rooms are at most 127 with ids that are uint64.
pub lobby-shown :
    (b : Build) (debug : Bool) (w : World) (behind : List ℕ)
    → HasBuffer b
    → HaveIds w.rooms
    → length w.rooms ≤ 127
    → (inform_lobby_infos b w ≡ ok (cast_all (lobby_packet w.rooms) w.lobby_clients w))
      × (handle_packet debug (lobby_packet w.rooms ++ behind) (length (lobby_packet w.rooms))
          ≡ ok (Shown.room_ids (length w.rooms) (map (λ r. r.0) w.rooms), true))
unfolding call handle_inform_lobby_infos
lobby-shown b debug w behind h known few = (
  inform_lobby_infos_lem b w h known few,
  handle_packet-packet debug s_inform_lobby_infos (lobby_fields w.rooms) behind _ (omega arith)
      ∙ rw (counted, listed) refl,
)
  where
    count : ℕ
    count = length w.rooms % 2 ^ 32

    r : Reader
    r = open_reader (lobby_packet w.rooms ++ behind) (length (lobby_packet w.rooms))

    ahead : Ahead (encode 4 count ++ body (ids w.rooms)) behind r
    ahead =
        open_reader-Ahead s_inform_lobby_infos (lobby_fields w.rooms) behind
          (omega (arith, length-lobby_fields w.rooms))

    counted : read_int debug 4 r ≡ ok (length w.rooms, moved 4 r)
    counted =
        let e : count ≡ length w.rooms = omega arith in
        read_int-Ahead debug 4 count (body (ids w.rooms) ++ behind) r (omega arith)
          (Ahead-left (encode 4 count) (body (ids w.rooms)) behind r ahead)
        ∙ ap (λ n. ok (n, moved 4 r)) e

    listed : read_ids debug (length w.rooms) (moved 4 r) ≡ ok (map (λ r. r.0) w.rooms)
    listed = read_ids-Ahead debug w.rooms behind (moved 4 r) known (
        rw (length-encode 4 count) at
          (Ahead-right (encode 4 count) (body (ids w.rooms)) behind r ahead))
