-- ===== src/SendBuffer/Regions.antt =====
-- The send buffers of one chunk, and the buffer that a thread gets.
use cplus_server_core_model.SendBuffer.{
  Chunk, SendBuffer, Manager, chunk_size, open_buffer, close, free_size, pop, choose, open_mine,
  make_send_buff, reset, make, ◌+◌, Bool, ℕ, List,
}
use cplus_server_core_model.Prelude.{
  ◌≡◌, ◌+◌, Bool, ℕ, List, false, arith, Outcome, ◌∷◌, ◌≤◌, ok, Option, some, true, dec_lt, [],
  none, refl, ◌>>=◌, ◌++◌, ltb, ◌∙◌,
}

-- A chunk between two send buffers.
pub record IsClosed (c : Chunk) : Type 0 where
  pub closed : c.is_open ≡ false
  pub inside : c.used_size ≤ chunk_size

free_size-IsClosed : (c : Chunk) → IsClosed c → free_size c + c.used_size ≡ chunk_size
unfolding free_size
free_size-IsClosed c v = let i = v.inside in omega arith

-- One send buffer opened with an allocation, written and closed with a size; none if the chunk has
-- no room.
unfoldable fill_one : Bool → ℕ → ℕ → Chunk → Outcome (List SendBuffer × Chunk)
fill_one debug alloc_size write_size c = do
  (found, c') ← open_buffer debug alloc_size c
  use_of found c'
  where
    use_of : Option SendBuffer → Chunk → Outcome (List SendBuffer × Chunk)
    use_of none c' = ok ([], c')
    use_of (some b) c' = do (b', c'') ← close write_size b c'; ok (b' ∷ [], c'')

-- The send buffers that a thread takes from one chunk, one after the other: the allocation of each
-- and what it writes.
unfoldable pub fill : Bool → List (ℕ × ℕ) → Chunk → Outcome (List SendBuffer × Chunk)
unfolding fill_one
fill debug [] c = ok ([], c)
fill debug ((alloc_size, write_size) ∷ ns) c = do
  (bs, c') ← fill_one debug alloc_size write_size c
  (rest, last) ← fill debug ns c'
  ok (bs ++ rest, last)

-- What each buffer wrote lies inside its allocation and the chunk, from where the one before
-- ended.
abbrev pub Packed : ℕ → List SendBuffer → ℕ → Type 0
Packed from [] upto = from ≡ upto
Packed from (b ∷ bs) upto =
    ((b.start ≡ from) × ((b.write_size ≤ b.alloc_size) × (b.start + b.alloc_size ≤ chunk_size)))
    × Packed (from + b.write_size) bs upto

abbrev pub AreWrites : List (ℕ × ℕ) → Type 0
AreWrites [] = Unit
AreWrites ((alloc_size, write_size) ∷ ns) =
    ((write_size ≤ alloc_size) × (alloc_size ≤ chunk_size)) × AreWrites ns

open_buffer-room :
    (debug : Bool) (n : ℕ) (c : Chunk)
    → IsClosed c
    → c.used_size + n ≤ chunk_size
    → open_buffer debug n c
      ≡ ok (
        some (record { start = c.used_size; alloc_size = n; write_size = 0 }),
        record c { is_open = true },
      )
unfolding open_buffer
open_buffer-room debug n c v h = let e = free_size-IsClosed c v in let i = v.closed in ground arith

abbrev pub IsMine : Option Chunk → Type 0
IsMine none = Unit
IsMine (some c) = IsClosed c

abbrev pub AreClosed : List Chunk → Type 0
AreClosed [] = Unit
AreClosed (c ∷ cs) = IsClosed c × AreClosed cs

-- A manager as it is between two calls: its chunks are closed.
pub record IsReady (m : Manager) : Type 0 where
  pub mine : IsMine m.mine
  pub given_back : AreClosed m.given_back

reset-IsClosed : (c : Chunk) → IsClosed (reset c)
unfolding reset
reset-IsClosed c = record { closed = refl; inside = omega arith }

make-IsClosed : IsClosed make
unfolding make
make-IsClosed = record { closed = refl; inside = omega arith }

-- A chunk with room that `Open` goes on with.
Chosen : ℕ → Manager → Type 0
Chosen size m =
    (c : Chunk) × (left : List Chunk) × (choose size m ≡ ok (c, left))
    × (IsClosed c × (c.used_size + size ≤ chunk_size))

choose-own :
    (size : ℕ) (c : Chunk) (cs : List Chunk)
    → IsClosed c
    → size ≤ chunk_size
    → Chosen size (record { mine = some c; given_back = cs })
unfolding Chosen choose reset
choose-own size c cs v h = elim (dec_lt (free_size c) size) [
  | yes l ↦
      let b : ltb (free_size c) size ≡ true = ground arith in
      (
        reset (pop cs).0,
        (pop cs).1,
        rw (v.closed, b) refl,
        (reset-IsClosed (pop cs).0, omega arith),
      )
  | no l ↦
      let b : ltb (free_size c) size ≡ false = ground arith in
      (c, cs, rw (v.closed, b) refl, (v, omega (arith, free_size-IsClosed c v)))
]

-- A thread without a chunk is one whose chunk is the popped one.
choose-none :
    (size : ℕ) (cs : List Chunk)
    → choose size (record { mine = none; given_back = cs })
      ≡ choose size (record { mine = some (pop cs).0; given_back = (pop cs).1 })
unfolding choose
choose-none size cs = refl

choose-IsReady : (size : ℕ) (m : Manager) → IsReady m → size ≤ chunk_size → Chosen size m
unfolding Chosen pop
choose-IsReady size m v h = go m.mine m.given_back v.mine v.given_back
  where
    go :
        (mine : Option Chunk) (cs : List Chunk)
        → IsMine mine
        → AreClosed cs
        → Chosen size (record { mine = mine; given_back = cs })
    go (some c) cs a b = choose-own size c cs a h
    go none [] a b =
        let (c, left, e, r) = choose-own size make [] make-IsClosed h in
        (c, left, choose-none size [] ∙ e, r)
    go none (c ∷ cs) a b =
        let (c', left, e, r) = choose-own size c cs b.0 h in
        (c', left, choose-none size (c ∷ cs) ∙ e, r)

-- With closed chunks about, a thread always gets a send buffer of 1024 bytes inside its chunk,
-- whether the chunk is its own, taken over from others, or new.
pub make_send_buff-total :
    (debug : Bool) (m : Manager)
    → IsReady m
    → (b : SendBuffer) × (m' : Manager) × (make_send_buff debug m ≡ ok (some b, m'))
      × ((b.alloc_size ≡ 1024) × (b.start + 1024 ≤ chunk_size))
unfolding make_send_buff open_mine Chosen
make_send_buff-total debug m v =
    let (c, left, e, (closed, room)) = choose-IsReady 1024 m v (omega arith) in
    (
      record { start = c.used_size; alloc_size = 1024; write_size = 0 },
      record { mine = some (record c { is_open = true }); given_back = left },
      rw (e, open_buffer-room debug 1024 c closed room) refl,
      (refl, room),
    )
