-- ===== src/Game/Dispatch.antt =====
-- Which handler gets a packet: the table of GameServer/ClientPacketHandler.h.
use cplus_server_core_model.Bytes.{encode, length-encode, decode-encode}
use cplus_server_core_model.FlatBuffer.Fields.{Field, body}
use cplus_server_core_model.FlatBuffer.Writing.{packet}
use cplus_server_core_model.Packet.{read_header}
use cplus_server_core_model.Game.{World, Build, none}
use cplus_server_core_model.Game.Handlers.{
  Handler, call, init_handlers, handler_count, handle_packet,
}
use cplus_server_core_model.Prelude.{
  ℕ, List, Outcome, ◌<◌, length, at, if◌then◌else◌, assign, replicate, ◌≡◌, ◌==◌, ◌++◌, some, ltb,
  arith, none, ap, refl, ◌∙◌, length-replicate, stray, ◌+◌, append_assoc, drop, drop-length, take,
  take-length, IsTable, assign-IsTable, at-replicate,
}
use mathlib.Core.Bool.{Bool, false, true}
use mathlib.Core.Option.{Option}

-- The handlers by the ids of ServerCore/Protocol.h.
abbrev pub handler_of : ℕ → Handler
handler_of id =
    if id == 1
    then Handler.enter_game
    else if id == 2
    then Handler.make_room
    else if id == 3
    then Handler.join_room
    else if id == 4
    then Handler.back_to_the_lobby
    else if id == 5
    then Handler.test_chat
    else if id == 6
    then Handler.keep_alive
    else Handler.invalid

pub at-init_handlers :
    (id entries : ℕ)
    → 6 < entries
    → at id (init_handlers entries) ≡ (if ltb id entries then some (handler_of id) else none)
unfolding init_handlers
at-init_handlers id entries h = ground (arith, table.1 id)
  where
    step :
        (n : ℕ) (a : Handler) (f : ℕ → Handler) (xs : List Handler)
        → n < entries
        → IsTable entries f xs
        → IsTable entries (λ i. if i == n then a else f i) (assign n a xs)
    step n a f xs small t = assign-IsTable entries n a f xs small t

    fresh : IsTable entries (λ i. Handler.invalid) (replicate entries Handler.invalid)
    fresh = (length-replicate entries Handler.invalid, λ i. at-replicate i entries Handler.invalid)

    table :
        IsTable entries
          (λ i.
            if i == 6
            then Handler.keep_alive
            else if i == 5
            then Handler.test_chat
            else if i == 4
            then Handler.back_to_the_lobby
            else if i == 3
            then Handler.join_room
            else if i == 2
            then Handler.make_room
            else if i == 1
            then Handler.enter_game
            else Handler.invalid)
          (init_handlers entries)
    table = step 6 Handler.keep_alive _ _ h (
        step 5 Handler.test_chat _ _ (omega arith) (
          step 4 Handler.back_to_the_lobby _ _ (omega arith) (
            step 3 Handler.join_room _ _ (omega arith) (
              step 2 Handler.make_room _ _ (omega arith)
                (step 1 Handler.enter_game _ _ (omega arith) fresh)))))

-- The header that a packet's fields got.
pub read_header-packet :
    (id : ℕ) (fs : List Field) (behind : List ℕ)
    → id < 65536
    → (read_header (packet id fs ++ behind) 0).id ≡ id
unfolding read_header
read_header-packet id fs behind h =
    rw (whole, behind_size, first_two) (decode-encode 2 id (omega arith))
  where
    size : List ℕ
    size = encode 2 (4 + length (body fs))

    whole : packet id fs ++ behind ≡ size ++ (encode 2 id ++ (body fs ++ behind))
    whole =
        append_assoc size (encode 2 id ++ body fs) behind
        ∙ ap (◌++◌ size) (append_assoc (encode 2 id) (body fs) behind)

    behind_size :
        drop 2 (size ++ (encode 2 id ++ (body fs ++ behind))) ≡ encode 2 id ++ (body fs ++ behind)
    behind_size =
        rw (length-encode 2 (4 + length (body fs))) at
          (drop-length size (encode 2 id ++ (body fs ++ behind)))

    first_two : take 2 (encode 2 id ++ (body fs ++ behind)) ≡ encode 2 id
    first_two = rw (length-encode 2 id) at (take-length (encode 2 id) (body fs ++ behind))

-- A packet is handed to the handler of its id, and one with the id 65535, for which the table has
-- no entry, reads outside of it.
pub handle_packet_lem :
    (b : Build) (c : ℕ) (buffer : List ℕ) (len : ℕ) (w : World)
    → let id = (read_header buffer 0).id in
      handle_packet b c buffer len w
      ≡ (if ltb id 65535 then call (handler_of id) b c buffer len w else stray)
unfolding handle_packet
handle_packet_lem b c buffer len w =
    let id = (read_header buffer 0).id in
    let e = at-init_handlers id handler_count (omega arith) in
    ap answer e ∙ chosen (ltb id 65535) (handler_of id)
  where
    answer : Option Handler → Outcome (World × Bool)
    answer found = elim found [ none ↦ stray | some handler ↦ call handler b c buffer len w ]

    chosen :
        (known : Bool) (h : Handler)
        → answer (if known then some h else none)
          ≡ (if known then call h b c buffer len w else stray)
    chosen true h = refl
    chosen false h = refl

-- A packet with an id of the table is handed to the handler of its id.
pub handle_packet-packet :
    (b : Build) (c id : ℕ) (fs : List Field) (behind : List ℕ) (len : ℕ) (w : World)
    → id < 65535
    → handle_packet b c (packet id fs ++ behind) len w
      ≡ call (handler_of id) b c (packet id fs ++ behind) len w
handle_packet-packet b c id fs behind len w h =
    let known : ltb id 65535 ≡ true = ground arith in
    rw known at (
      rw (read_header-packet id fs behind (omega arith)) at
        (handle_packet_lem b c (packet id fs ++ behind) len w))
