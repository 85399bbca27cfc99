-- ===== src/Packet/Tests.antt =====
-- A packet of four bytes, with the first byte of another behind it.
use cplus_server_core_model.Bytes.{decode}
use cplus_server_core_model.Packet.{Received, on_recv, List, ◌∷◌, suc, ℕ, [], some, length}
use cplus_server_core_model.Packet.Frames.{Frames, Stalls}
use cplus_server_core_model.Packet.Loop.{on_recv-Frames, on_recv_returns}
use cplus_server_core_model.Prelude.{List, ◌∷◌, ◌≡◌, suc, ℕ, [], some, length, arith, ◌↔◌}

abbrev two : List ℕ
two = 4 ∷ 0 ∷ 1 ∷ 0 ∷ 5 ∷ []

two-Frames : Frames two ((4 ∷ 0 ∷ 1 ∷ 0 ∷ []) ∷ []) (5 ∷ [])
unfolding decode
two-Frames =
    Frames.packet {bytes = two} (omega arith) (omega arith) (omega arith)
      (Frames.short (omega arith))

on_recv-Frames_example :
    on_recv 6 two ≡ some (record { packets = (4 ∷ 0 ∷ 1 ∷ 0 ∷ []) ∷ []; process_len = 4 })
on_recv-Frames_example = on_recv-Frames 6 two-Frames (omega arith)

on_recv_returns_example :
    ((r : Received) × (on_recv (suc (length two)) two ≡ some r)) ↔ ¬ Stalls two
on_recv_returns_example = on_recv_returns two
