-- ===== src/Game/Infos.antt =====
-- The packets with which the lobby and the rooms inform their clients.
use cplus_server_core_model.FlatBuffer.Fields.{Field, body, AreFields, write_all, write_field}
use cplus_server_core_model.FlatBuffer.Writing.{write_packet, packet, write_packet-packet}
use cplus_server_core_model.FlatBuffer.{
  Writer, open_writer, close_writer, write, put, check_write, u16,
}
use cplus_server_core_model.Game.{
  World, Build, buffer_size, s_inform_lobby_infos, s_inform_room_infos, cast_all, ℕ, List, map, [],
  Bool,
}
use cplus_server_core_model.Game.Rooms.{inform_room_infos}
use cplus_server_core_model.Game.Lobbies.{inform_lobby_infos, lobby_fields}
use cplus_server_core_model.Bytes.{encode, length-encode}
use cplus_server_core_model.Prelude.{
  Ends, Ends-then, Ends-always, Ends-ok, Ends-any, Outcome, ok, stray, length, ℕ, List, ◌≡◌, ◌%◌,
  ◌≤◌, map, ◌^◌, ◌*◌, ◌+◌, arith, length-append, ◌∷◌, refl, ◌<◌, [], Bool, leb, ◌>>=◌, ◌↔◌,
  if◌then◌else◌, overwrite, length-overwrite, ◌∙◌, true, false,
}

-- A new send buffer is an allocation of 1024 bytes.
abbrev pub HasBuffer : Build → Type 0
HasBuffer b = length b.memory ≡ buffer_size

abbrev pub room_packet : ℕ → List ℕ
room_packet players = packet s_inform_room_infos (Field.int 4 (players % 2 ^ 32) ∷ [])

pub inform_room_infos_lem :
    (b : Build) (r : ℕ) (w : World)
    → HasBuffer b
    → inform_room_infos b r w
      ≡ ok (cast_all (room_packet (length (w.room r).clients)) (w.room r).clients w)
unfolding inform_room_infos encode
inform_room_infos_lem b r w h =
    rw
      (rw h at (
        write_packet-packet b.debug s_inform_room_infos
          (Field.int 4 (length (w.room r).clients % 2 ^ 32) ∷ []) b.memory (omega arith, tt)
          (omega arith) (omega (arith, length-encode 4 (length (w.room r).clients % 2 ^ 32)))))
      refl

-- The ids of the rooms are uint64.
abbrev pub HaveIds : List (ℕ × ℕ) → Type 0
HaveIds [] = Unit
HaveIds ((id, r) ∷ rooms) = (id < 2 ^ 64) × HaveIds rooms

abbrev pub ids : List (ℕ × ℕ) → List Field
ids rooms = map (λ r. Field.int 8 r.0) rooms

pub length-ids : (rooms : List (ℕ × ℕ)) → length (body (ids rooms)) ≡ 8 * length rooms
length-ids [] = refl
length-ids ((id, r) ∷ rooms) =
    omega
      (arith, length-append (encode 8 id) (body (ids rooms)), length-encode 8 id, length-ids rooms)

pub ids-AreFields : (rooms : List (ℕ × ℕ)) → HaveIds rooms → AreFields (ids rooms)
ids-AreFields [] h = tt
ids-AreFields ((id, r) ∷ rooms) h = (h.0, ids-AreFields rooms h.1)

pub length-lobby_fields :
    (rooms : List (ℕ × ℕ)) → length (body (lobby_fields rooms)) ≡ 4 + 8 * length rooms
length-lobby_fields rooms = omega (
  arith,
  length-append (encode 4 (length rooms % 2 ^ 32)) (body (ids rooms)),
  length-encode 4 (length rooms % 2 ^ 32),
  length-ids rooms,
)

abbrev pub lobby_packet : List (ℕ × ℕ) → List ℕ
lobby_packet rooms = packet s_inform_lobby_infos (lobby_fields rooms)

pub inform_lobby_infos_lem :
    (b : Build) (w : World)
    → HasBuffer b
    → HaveIds w.rooms
    → length w.rooms ≤ 127
    → inform_lobby_infos b w ≡ ok (cast_all (lobby_packet w.rooms) w.lobby_clients w)
unfolding inform_lobby_infos
inform_lobby_infos_lem b w h known few =
    rw
      (rw h at (
        write_packet-packet b.debug s_inform_lobby_infos (lobby_fields w.rooms) b.memory
          (omega arith, ids-AreFields w.rooms known) (omega arith)
          (omega (arith, length-lobby_fields w.rooms))))
      refl

-- A writer at this position of a buffer of this size.
record At (size n : ℕ) (w : Writer) : Type 0 where
  here : w.pos ≡ n
  inside : n ≤ size
  whole : length w.buffer ≡ size

put-At :
    (src : List ℕ) (size n : ℕ) (w : Writer)
    → size < 65536
    → At size n w
    → Ends (At size (n + length src)) (put src w)
unfolding put
put-At src size n w small a = go (leb (w.pos + length src) (length w.buffer)) refl
  where
    go :
        (fits : Bool)
        → leb (w.pos + length src) (length w.buffer) ≡ fits
        → Ends (At size (n + length src)) (
            if fits
            then ok
                (record w { buffer = overwrite w.buffer w.pos src; pos = u16 (w.pos + length src) })
            else stray)
    go true h =
        let e = a.here in
        let v = a.whole in
        record {
          here = ground arith;
          inside = ground arith;
          whole = length-overwrite w.buffer w.pos src ∙ v;
        }
    go false h = tt

write-At :
    (debug : Bool) (src : List ℕ) (size n : ℕ) (w : Writer)
    → size < 65536
    → At size n w
    → Ends (At size (n + length src)) (write debug src w)
unfolding write
write-At debug src size n w small a =
    Ends-always (At size (n + length src)) (λ u. put src w) (λ u. put-At src size n w small a)
      (check_write debug (length src) w)

write_ids-At :
    (debug : Bool) (rooms : List (ℕ × ℕ)) (size n : ℕ) (w : Writer)
    → size < 65536
    → At size n w
    → Ends (At size (n + 8 * length rooms)) (write_all debug (ids rooms) w)
unfolding write_all write_field
write_ids-At debug [] size n w small a = let e : n ≡ n + 0 = omega arith in rw e at a
write_ids-At debug ((id, r) ∷ rooms) size n w small a =
    Ends-then (At size (n + 8 * length ((id, r) ∷ rooms))) (λ w'. write_all debug (ids rooms) w')
      (λ w' a'.
        let e : n + length (encode 8 id) + 8 * length rooms ≡ n + 8 * length ((id, r) ∷ rooms) =
          omega (arith, length-encode 8 id) in
        rw e at (write_ids-At debug rooms size (n + length (encode 8 id)) w' small a'))
      (write debug (encode 8 id) w) (write-At debug (encode 8 id) size n w small a)

open_writer-At :
    (buffer : List ℕ) (alloc_size id : ℕ)
    → Ends (At (length buffer) 4) (open_writer buffer alloc_size id)
unfolding open_writer
open_writer-At buffer alloc_size id = go (leb 4 (length buffer)) refl
  where
    go :
        (fits : Bool)
        → leb 4 (length buffer) ≡ fits
        → Ends (At (length buffer) 4) (
            if fits
            then ok (record {
              buffer = overwrite buffer 2 (encode 2 id);
              size = u16 alloc_size;
              pos = 4;
            })
            else stray)
    go true h = record {
      here = refl;
      inside = ground arith;
      whole = length-overwrite buffer 2 (encode 2 id);
    }
    go false h = tt

-- A packet with the lobby's fields comes out only where the buffer has room for them.
lobby_fields-fit :
    (debug : Bool) (alloc_size id : ℕ) (rooms : List (ℕ × ℕ)) (buffer : List ℕ)
    → length buffer < 65536
    → Ends
        (λ p. 8 + 8 * length rooms ≤ length buffer)
        (write_packet debug alloc_size id (lobby_fields rooms) buffer)
unfolding write_packet write_all write_field
lobby_fields-fit debug alloc_size id rooms buffer small =
    Ends-then Fit rest
      (λ w a.
        Ends-then Fit (close_writer alloc_size)
          (λ w' a'.
            Ends-any Fit (λ p. let i = a'.inside in ground arith) (close_writer alloc_size w'))
          (write_all debug (lobby_fields rooms) w)
          (Ends-then (At (length buffer) (8 + 8 * length rooms))
            (λ w'. write_all debug (ids rooms) w')
            (λ w' a'. write_ids-At debug rooms (length buffer) 8 w' small a')
            (write debug (encode 4 count) w)
            (rw (length-encode 4 count) at
              (write-At debug (encode 4 count) (length buffer) 4 w small a))))
      (open_writer buffer alloc_size id) (open_writer-At buffer alloc_size id)
  where
    count : ℕ
    count = length rooms % 2 ^ 32

    Fit : List ℕ → Type 0
    Fit p = 8 + 8 * length rooms ≤ length buffer

    rest : Writer → Outcome (List ℕ)
    rest w = write_all debug (lobby_fields rooms) w >>= λ w'. close_writer alloc_size w'

-- The lobby informs its clients, without a crash or a write outside of the send buffer of 1024
-- bytes, exactly when it has at most 127 rooms (with ids that are uint64): with more, no call of
-- InformLobbyInfos comes to its end.
pub inform_lobby_infos-bounds :
    (b : Build) (w : World)
    → HasBuffer b
    → HaveIds w.rooms
    → ((v : World) × (inform_lobby_infos b w ≡ ok v)) ↔ (length w.rooms ≤ 127)
unfolding inform_lobby_infos
inform_lobby_infos-bounds b w h known = (
  (λ e.
      Ends-ok (λ v. length w.rooms ≤ 127) e.1
        (Ends-then (λ v. length w.rooms ≤ 127) (λ p. ok (cast_all p w.lobby_clients w))
          (λ p fit. omega (arith, fit))
          (write_packet b.debug buffer_size s_inform_lobby_infos (lobby_fields w.rooms) b.memory)
          (lobby_fields-fit b.debug buffer_size s_inform_lobby_infos w.rooms b.memory
            (omega arith)))),
  (λ few. (_, inform_lobby_infos_lem b w h known few)),
)
