-- ===== src/SendBuffer/Tests.antt =====
-- A thread without a chunk, with a nearly full one given back; and three buffers from it.
use cplus_server_core_model.SendBuffer.{
  Chunk, SendBuffer, Manager, make_send_buff, chunk_size, false, none, true, List,
}
use cplus_server_core_model.SendBuffer.Regions.{IsClosed, make_send_buff-total}
use cplus_server_core_model.Prelude.{
  false, arith, none, true, List, ◌≡◌, ℕ, ◌∷◌, refl, [], ok, some, ◌+◌, ◌≤◌,
}

abbrev worn : Chunk
worn = record { is_open = false; used_size = 5900 }

worn-IsClosed : IsClosed worn
worn-IsClosed = record { closed = refl; inside = omega arith }

abbrev fresh_thread : Manager
fresh_thread = record { mine = none; given_back = worn ∷ [] }

make_send_buff-total_example :
    (b : SendBuffer) × (m : Manager) × (make_send_buff true fresh_thread ≡ ok (some b, m))
    × ((b.alloc_size ≡ 1024) × (b.start + 1024 ≤ chunk_size))
make_send_buff-total_example =
    make_send_buff-total true fresh_thread (record { mine = tt; given_back = (worn-IsClosed, tt) })

abbrev three : List (ℕ × ℕ)
three = (1024, 50) ∷ (100, 20) ∷ (50, 50) ∷ []
