-- ===== src/Packet/Loop.antt =====
-- The loop of `OnRecv` against the frames of the bytes that it is given.
use cplus_server_core_model.Packet.{Received, recv_loop, on_recv}
use cplus_server_core_model.Packet.Frames.{
  Frames, short, partial, packet, Stalls, zero_size, behind, Reading, framed, stalled, read_stream,
  stated_size,
}
use cplus_server_core_model.Prelude.{
  ℕ, zero, suc, ◌+◌, ◌-◌, ◌≤◌, ◌<◌, ◌≡◌, refl, ap, List, none, some, arith, length, drop,
  length-drop, drop-drop, take, ◌∙◌, ◌↔◌,
}

-- From position `p` on the loop sees the stream `drop p buffer`.
Frames-recv_loop :
    {bytes tail : List ℕ} {ps : List (List ℕ)}
    → Frames bytes ps tail
    → (rounds : ℕ) (buffer : List ℕ) (p : ℕ) → bytes ≡ drop p buffer
    → p ≤ length buffer
    → length bytes < rounds
    → recv_loop rounds buffer (length buffer) p
      ≡ some (record { packets = ps; process_len = length buffer - length tail })
unfolding recv_loop
Frames-recv_loop f zero buffer p e le fuel = absurd (omega arith)
Frames-recv_loop (short {bytes = b} h) (suc k) buffer p e le fuel =
    ground (arith, ap length e, length-drop p buffer)
Frames-recv_loop (partial {bytes = b} h l) (suc k) buffer p e le fuel =
    ground (arith, ap length e, ap stated_size e, length-drop p buffer)
Frames-recv_loop (packet {bytes = b} h pos fits f) (suc k) buffer p e le fuel =
    let n = stated_size b in
    let here = length-drop p buffer in
    let ih =
      Frames-recv_loop {bytes = drop n b} f k buffer (p + n) (ap (drop n) e ∙ drop-drop n p buffer)
        (omega (arith, ap length e, here)) (omega (arith, length-drop n b)) in
    ground (arith, ap length e, ap stated_size e, ap (take n) e, here, ih)

Stalls-recv_loop :
    {bytes : List ℕ}
    → Stalls bytes
    → (rounds : ℕ) (buffer : List ℕ) (p : ℕ) → bytes ≡ drop p buffer
    → p ≤ length buffer
    → recv_loop rounds buffer (length buffer) p ≡ none
unfolding recv_loop
Stalls-recv_loop s zero buffer p e le = refl
Stalls-recv_loop (zero_size {bytes = b} h z) (suc k) buffer p e le =
    let same : p + 0 ≡ p = omega arith in
    let ih = rw (← same) at (Stalls-recv_loop {bytes = b} (zero_size h z) k buffer p e le) in
    ground (arith, ap length e, ap stated_size e, length-drop p buffer, ih)
Stalls-recv_loop (behind {bytes = b} h pos fits s) (suc k) buffer p e le =
    let n = stated_size b in
    let here = length-drop p buffer in
    let ih =
      Stalls-recv_loop {bytes = drop n b} s k buffer (p + n) (ap (drop n) e ∙ drop-drop n p buffer)
        (omega (arith, ap length e, here)) in
    ground (arith, ap length e, ap stated_size e, here, ih)

-- Given the frames of the received bytes, OnRecv hands over exactly the packets, in order, and
-- returns the number of bytes in front of the tail, within as many rounds as there are bytes,
-- and one more.
pub on_recv-Frames :
    (rounds : ℕ) {buffer tail : List ℕ} {packets : List (List ℕ)}
    → Frames buffer packets tail
    → length buffer < rounds
    → on_recv rounds buffer
      ≡ some (record { packets = packets; process_len = length buffer - length tail })
unfolding on_recv
on_recv-Frames rounds {buffer} f h = Frames-recv_loop f rounds buffer 0 refl (omega arith) h

-- If the bytes come, after some packets, to a header that states the size 0, OnRecv does not
-- return, whatever number of rounds it is given.
on_recv-Stalls : (rounds : ℕ) {buffer : List ℕ} → Stalls buffer → on_recv rounds buffer ≡ none
unfolding on_recv
on_recv-Stalls rounds {buffer} s = Stalls-recv_loop s rounds buffer 0 refl (omega arith)

-- OnRecv returns on a stream of bytes exactly when the stream does not come to a header that
-- states the size 0.
pub on_recv_returns :
    (buffer : List ℕ)
    → ((r : Received) × (on_recv (suc (length buffer)) buffer ≡ some r)) ↔ ¬ Stalls buffer
on_recv_returns buffer = (returned, returning)
  where
    returned : ((r : Received) × (on_recv (suc (length buffer)) buffer ≡ some r)) → ¬ Stalls buffer
    returned (r, e) s = let none_left = on_recv-Stalls (suc (length buffer)) s in cc

    read :
        Reading buffer
        → ¬ Stalls buffer
        → (r : Received) × (on_recv (suc (length buffer)) buffer ≡ some r)
    read (framed ps t f) h = (_, on_recv-Frames (suc (length buffer)) f (omega arith))
    read (stalled s) h = absurd (h s)

    returning : ¬ Stalls buffer → (r : Received) × (on_recv (suc (length buffer)) buffer ≡ some r)
    returning = read (read_stream buffer)
