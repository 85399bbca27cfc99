-- ===== src/Recv/Refinement.antt =====
-- The receive buffer under any sequence of calls, beside a queue with a bound.
use cplus_server_core_model.Recv.{
  Memcpy, RecvBuffer, free_size, data_size, clean, on_read, on_write, arrive, pending, IsValid,
}
use cplus_server_core_model.Recv.Queue.{
  on_read-IsValid, on_write-IsValid, arrive-IsValid, length-pending, pending-clean, slice-later,
}
use cplus_server_core_model.Prelude.{
  ℕ, List, Bool, [], ◌∷◌, ◌++◌, ◌≡◌, length, drop, true, false, if◌then◌else◌, leb, ◌-◌, arith,
  slice-written, refl, slice-overwrite_before, ap, ◌∙◌, ◌≤◌,
}

-- What a session does with its buffer: bytes arrive and OnWrite is called for them, OnRead, Clean.
pub data Call : Type 0 where
  arrives : (bytes : List ℕ) → Call
  reads : (n : ℕ) → Call
  cleans : Call

unfoldable pub perform : Memcpy → Call → RecvBuffer → RecvBuffer × Bool
unfolding on_write arrive on_read clean
perform m (arrives bytes) b = on_write (length bytes) (arrive bytes b)
perform m (reads n) b = on_read n b
perform m cleans b = (clean m b, true)

-- The queue, and how many bytes may come in before the next Clean.
pub record Bounded : Type 0 where
  pub bytes : List ℕ
  pub room : ℕ

abbrev pub view : RecvBuffer → Bounded
view b = record { bytes = pending b; room = free_size b }

abbrev pub serve : ℕ → Call → Bounded → Bounded × Bool
serve capacity (arrives bytes) q =
    if leb (length bytes) q.room
    then (record { bytes = q.bytes ++ bytes; room = q.room - length bytes }, true)
    else (q, false)
serve capacity (reads n) q =
    if leb n (length q.bytes) then (record q { bytes = drop n q.bytes }, true) else (q, false)
serve capacity cleans q = (record q { room = capacity - length q.bytes }, true)

-- The results of all calls, in order, and the state behind them.
abbrev pub perform_all : Memcpy → List Call → RecvBuffer → RecvBuffer × List Bool
perform_all m [] b = (b, [])
perform_all m (c ∷ cs) b =
    let now = perform m c b in let later = perform_all m cs now.0 in (later.0, now.1 ∷ later.1)

abbrev pub serve_all : ℕ → List Call → Bounded → Bounded × List Bool
serve_all capacity [] q = (q, [])
serve_all capacity (c ∷ cs) q =
    let now = serve capacity c q in
    let later = serve_all capacity cs now.0 in (later.0, now.1 ∷ later.1)

-- Clean finds no more bytes left than were read.
abbrev pub IsApart : Call → RecvBuffer → Type 0
IsApart (arrives bytes) b = Unit
IsApart (reads n) b = Unit
IsApart cleans b = data_size b ≤ b.read_pos

abbrev pub CleansApart : Memcpy → List Call → RecvBuffer → Type 0
CleansApart m [] b = Unit
CleansApart m (c ∷ cs) b = IsApart c b × CleansApart m cs (perform m c b).0

-- One call: the buffer stays valid and as large, and does what the queue does.
abbrev Follows : ℕ → RecvBuffer × Bool → Bounded × Bool → Type 0
Follows capacity (b, ok) (q, ok') = IsValid b × (b.capacity ≡ capacity) × (view b ≡ q) × (ok ≡ ok')

clean-capacity : (m : Memcpy) (b : RecvBuffer) → (clean m b).capacity ≡ b.capacity
unfolding clean
clean-capacity m b = ground arith

arrives-Follows :
    (bytes : List ℕ) (m : Memcpy) (b : RecvBuffer)
    → IsValid b
    → Follows b.capacity (perform m (arrives bytes) b) (serve b.capacity (arrives bytes) (view b))
unfolding perform on_write arrive pending data_size free_size
arrives-Follows bytes m b v =
    let written = slice-written b.buffer bytes b.read_pos b.write_pos in
    let kept =
      slice-overwrite_before b.read_pos (b.write_pos - b.read_pos) b.buffer b.write_pos bytes
        (omega arith) in
    (
      on_write-IsValid (length bytes) (arrive bytes b) (arrive-IsValid bytes b v),
      ground arith,
      ground (arith, written, kept),
      ground arith,
    )

reads-Follows :
    (n : ℕ) (m : Memcpy) (b : RecvBuffer)
    → IsValid b
    → Follows b.capacity (perform m (reads n) b) (serve b.capacity (reads n) (view b))
unfolding perform on_read pending data_size free_size
reads-Follows n m b v =
    let n' = length-pending b v in
    let later = slice-later b.read_pos b.write_pos n b.buffer in
    (on_read-IsValid n b v, ground arith, ground (arith, n', later), ground (arith, n', later))

cleans-Follows :
    (m : Memcpy) (b : RecvBuffer)
    → IsValid b
    → data_size b ≤ b.read_pos
    → Follows b.capacity (perform m cleans b) (serve b.capacity cleans (view b))
unfolding perform
cleans-Follows m b v safe =
    let (v', same, room) = pending-clean m b v safe in
    (v', clean-capacity m b, rw (same, room, length-pending b v) refl, refl)

perform-Follows :
    (c : Call) (m : Memcpy) (b : RecvBuffer)
    → IsValid b
    → IsApart c b
    → Follows b.capacity (perform m c b) (serve b.capacity c (view b))
perform-Follows (arrives bytes) m b v safe = arrives-Follows bytes m b v
perform-Follows (reads n) m b v safe = reads-Follows n m b v
perform-Follows cleans m b v safe = cleans-Follows m b v safe

-- Under any sequence of arrivals, OnWrite, OnRead and Clean, a receive buffer is a queue of bytes
-- with a bound: it gives the same results as the queue, call for call, and its unread bytes and its
-- free space are those of the queue at the end. The queue takes what arrives while there is room,
-- hands out as many bytes as it has, and gets its room back at each Clean. At each Clean at
-- least as many bytes have been read as are left, so that `memcpy` copies parts that do not overlap.
pub perform_all-serve_all :
    (cs : List Call) (m : Memcpy) (b : RecvBuffer)
    → IsValid b
    → CleansApart m cs b
    → let (b', results) = perform_all m cs b in
      (view b', results) ≡ serve_all b.capacity cs (view b)
perform_all-serve_all [] m b v safe = refl
perform_all-serve_all (c ∷ cs) m b v safe =
    let (v', same, e, ok) = perform-Follows c m b v safe.0 in
    let now = perform m c b in
    let served = serve b.capacity c (view b) in
    let rest = perform_all-serve_all cs m now.0 v' safe.1 in
    let bound =
      ap (λ k. serve_all k cs (view now.0)) same ∙ ap (λ q. serve_all b.capacity cs q) e in
    let last = serve_all b.capacity cs served.0 in
    ap (λ r. (r.0, now.1 ∷ r.1)) (rest ∙ bound) ∙ ap (λ ok'. (last.0, ok' ∷ last.1)) ok
