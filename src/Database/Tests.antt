-- ===== src/Database/Tests.antt =====
-- A query with three parameters, of which the last is bound first and one twice, and a column; and
-- an ODBC that keeps each handle with the one that it is allocated on.
use cplus_server_core_model.Database.{make, true, ℕ, ltb, List, Bool, some, false}
use cplus_server_core_model.Database.Connections.{
  Odbc, Connection, ConnectionPool, clear, clear_pool, no_connection,
}
use cplus_server_core_model.Database.Connections
use cplus_server_core_model.Database.Leaks.{clear-leaks}
use cplus_server_core_model.Prelude.{
  erase_key, [], ◌∷◌, ◌≡◌, true, ℕ, ltb, arith, ◌≢◌, List, Bool, if◌then◌else◌, some, false, refl,
  ◌==◌, ◌||◌, ◌&&◌,
}

abbrev Handles : Type 0
Handles = List (ℕ × ℕ)

abbrev has_child : ℕ → Handles → Bool
has_child h [] = false
has_child h ((child, parent) ∷ hs) = parent == h || has_child h hs

abbrev has_pair : ℕ → ℕ → Handles → Bool
has_pair c p [] = false
has_pair c p ((child, parent) ∷ hs) = (child == c && parent == p) || has_pair c p hs

abbrev is_allocated : ℕ → Handles → Bool
is_allocated h [] = false
is_allocated h ((child, parent) ∷ hs) = child == h || is_allocated h hs

has_child-has_pair : (c p : ℕ) (hs : Handles) → has_pair c p hs ≡ true → has_child p hs ≡ true
has_child-has_pair c p [] h = ground arith
has_child-has_pair c p ((child, parent) ∷ hs) h = ground (arith, has_child-has_pair c p hs)

allocated-erase_key :
    (h other : ℕ) (hs : Handles)
    → h ≢ other
    → is_allocated other (erase_key h hs) ≡ is_allocated other hs
unfolding erase_key
allocated-erase_key h other [] ne = refl
allocated-erase_key h other ((child, parent) ∷ hs) ne =
    ground (arith, allocated-erase_key h other hs ne)

abbrev free_unless_busy : ℕ → Handles → Handles
free_unless_busy h hs = if has_child h hs then hs else erase_key h hs

odbc : Odbc Handles
odbc = record {
  allocated = is_allocated;
  stands_on = has_pair;
  free = free_unless_busy;
  free_busy = λ c p hs e. ground (arith, has_child-has_pair c p hs e);
  free_other = λ h other hs ne. ground (arith, allocated-erase_key h other hs ne);
}

-- The environment 1, the connection 2 and the statement 3.
abbrev open_handles : Handles
open_handles = (1, 0) ∷ (2, 1) ∷ (3, 2) ∷ []

abbrev opened : Connection
opened = record { connection = some 2; statement = some 3 }

abbrev pool : ConnectionPool
pool = record { environment = some 1; connections = opened ∷ [] }

clear-leaks_example :
    ((clear odbc opened open_handles).0 ≡ no_connection)
    × (odbc.allocated 2 (clear odbc opened open_handles).1 ≡ true)
    × (clear_pool odbc pool open_handles ≡ (Connections.make, open_handles))
unfolding odbc
clear-leaks_example = clear-leaks odbc 2 3 1 open_handles pool refl refl refl (omega arith) refl
