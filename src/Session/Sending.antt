-- ===== src/Session/Sending.antt =====
-- The send side of a session, method by method: what each keeps, and what it hands to `WSASend`.
use cplus_server_core_model.Session.{
  Session, Kernel, send, process_send, disconnect, process_connect, make, ServiceType,
  register_recv, ◌≡◌, List, ℕ, false, true, [], Effect, handle_error, register_send,
  process_disconnect, Received, consume, process_recv, register_connect,
}
use cplus_server_core_model.Prelude.{
  arith, ◌++◌, ◌∷◌, ◌∙◌, append-nil, refl, map, some, Bool-cases, ◌==◌, inl, subst, inr,
  Option-cases,
}
use cplus_server_core_model.Recv.{free_size, Memcpy, on_read, clean, pending, on_write}
use cplus_server_core_model.Packet.{Received, on_recv}
use cplus_server_core_model.Session.Effects.{posted, posted-append}

-- Nothing is queued and no `WSASend` is under way while no send is registered; an event without one has no buffers.
pub record IsSound (s : Session) : Type 0 where
  pub idle : s.send_registered ≡ false → (s.send_queue ≡ []) × (s.send_owner ≡ false)
  pub clear : s.send_owner ≡ false → s.send_buffers ≡ []

pub make-IsSound : (t : ServiceType) → IsSound (make t)
unfolding make
make-IsSound t = ground arith

pub disconnect-IsSound : (k : Kernel) (s : Session) → IsSound s → IsSound (disconnect k s)
unfolding disconnect
disconnect-IsSound k s v = ground arith

pub send-IsSound : (k : Kernel) (b : List ℕ) (s : Session) → IsSound s → IsSound (send k b s)
unfolding send
send-IsSound k b s v = ground arith

pub process_send-IsSound :
    (k : Kernel) (n : ℕ) (s : Session)
    → s.send_owner ≡ true
    → IsSound s
    → IsSound (process_send k n s)
unfolding process_send
process_send-IsSound k n s o v = ground arith

register_recv-IsSound : (k : Kernel) (s : Session) → IsSound s → IsSound (register_recv k s)
unfolding register_recv
register_recv-IsSound k s v = ground arith

pub process_connect-IsSound : (k : Kernel) (s : Session) → IsSound s → IsSound (process_connect k s)
unfolding process_connect
process_connect-IsSound k s v = ground arith

-- All buffers that Send has accepted: those given to `WSASend`, and behind them the queue.
abbrev pub accepted : Session → List (List ℕ)
accepted s = posted s.log ++ s.send_queue

pub posted-quiet :
    (es : List Effect) (e : Effect) → posted (e ∷ []) ≡ [] → posted (es ++ e ∷ []) ≡ posted es
posted-quiet es e h = posted-append es (e ∷ []) ∙ (rw h (append-nil (posted es)))

pub accepted-disconnect : (k : Kernel) (s : Session) → accepted (disconnect k s) ≡ accepted s
unfolding disconnect
accepted-disconnect k s = ground (arith, posted-quiet s.log Effect.disconnect_ex refl)

accepted-handle_error :
    (k : Kernel) (err : ℕ) (s : Session) → accepted (handle_error k err s) ≡ accepted s
unfolding handle_error
accepted-handle_error k err s = ground (arith, accepted-disconnect k s)

posted-wsa_send :
    (es : List Effect) (bs : List (List ℕ))
    → posted (es ++ Effect.wsa_send bs ∷ []) ≡ posted es ++ bs
posted-wsa_send es bs = posted-append es (Effect.wsa_send bs ∷ []) ∙ (rw (append-nil bs))

-- RegisterSend hands the whole queue over, also where the call fails.
pub accepted-register_send :
    (k : Kernel) (s : Session) → s.send_buffers ≡ [] → accepted (register_send k s) ≡ accepted s
unfolding register_send
accepted-register_send k s e =
    let bs = s.send_buffers ++ s.send_queue in
    ground (
      arith,
      posted-wsa_send s.log bs,
      posted-quiet (s.log ++ Effect.wsa_send bs ∷ []) Effect.disconnect_ex refl,
      append-nil (posted s.log ++ s.send_queue),
    )

pub accepted-register_recv : (k : Kernel) (s : Session) → accepted (register_recv k s) ≡ accepted s
unfolding register_recv
accepted-register_recv k s =
    let e = Effect.wsa_recv (free_size s.recv_buffer) in
    ground
      (arith, posted-quiet s.log e refl, posted-quiet (s.log ++ e ∷ []) Effect.disconnect_ex refl)

pub accepted-send_refused :
    (k : Kernel) (b : List ℕ) (s : Session)
    → s.connected ≡ false
    → accepted (send k b s) ≡ accepted s
unfolding send
accepted-send_refused k b s c = ground arith

pub accepted-process_disconnect : (s : Session) → accepted (process_disconnect s) ≡ accepted s
unfolding process_disconnect
accepted-process_disconnect s = ground (
  arith,
  posted-append s.log (Effect.on_disconnected ∷ Effect.release_session ∷ []),
  append-nil (posted s.log),
)

posted-received :
    (es : List Effect) (ps : List (List ℕ))
    → posted (es ++ map Effect.on_recv_packet ps) ≡ posted es
posted-received es ps =
    posted-append es (map Effect.on_recv_packet ps) ∙ (rw (none_sent ps) (append-nil (posted es)))
  where
    none_sent : (qs : List (List ℕ)) → posted (map Effect.on_recv_packet qs) ≡ []
    none_sent [] = refl
    none_sent (q ∷ qs) = none_sent qs

consume-IsSound :
    (m : Memcpy) (k : Kernel) (s : Session) (r : Received) → IsSound s → IsSound (consume m k s r)
unfolding consume
consume-IsSound m k s r v = ground arith

accepted-consume :
    (m : Memcpy) (k : Kernel) (s : Session) (r : Received) → accepted (consume m k s r) ≡ accepted s
unfolding consume
accepted-consume m k s r =
    let s' = record s { log = s.log ++ map Effect.on_recv_packet r.packets } in
    let read = (on_read r.process_len s.recv_buffer).0 in
    ground (
      arith,
      posted-received s.log r.packets,
      accepted-disconnect k s',
      accepted-register_recv k (record s' { recv_buffer = clean m read }),
    )

-- ProcessRecv that returns has disconnected, or has gone on to `consume`.
pub process_recv_cases {ℓ} :
    (P : Session → Type ℓ) (m : Memcpy) (k : Kernel) (rounds n : ℕ) (s : Session) {t : Session}
    → P (disconnect k (record s { recv_owner = false }))
    → ((r : Received)
        → P (
            consume m k
              (record s { recv_owner = false; recv_buffer = (on_write n s.recv_buffer).0 })
              r))
    → process_recv m k rounds n s ≡ some t
    → P t
unfolding process_recv
process_recv_cases P m k rounds n s {t} gone read e = elim (Bool-cases (n == 0)) [
  | inl z ↦ subst P (ground arith) gone
  | inr z ↦ elim (Bool-cases (on_write n s.recv_buffer).1) [
    | inr full ↦ subst P (ground arith) gone
    | inl fits ↦ elim (Option-cases (on_recv rounds (pending (on_write n s.recv_buffer).0))) [
      | inl q ↦ absurd (ground arith)
      | inr (r, q) ↦ subst P (ground arith) (read r)
    ]
  ]
]

pub process_recv-IsSound :
    (m : Memcpy) (k : Kernel) (rounds n : ℕ) (s : Session) {t : Session}
    → process_recv m k rounds n s ≡ some t
    → IsSound s
    → IsSound t
process_recv-IsSound m k rounds n s e v =
    process_recv_cases IsSound m k rounds n s (disconnect-IsSound k _ (ground arith))
      (λ r. consume-IsSound m k _ r (ground arith)) e

pub accepted-process_recv :
    (m : Memcpy) (k : Kernel) (rounds n : ℕ) (s : Session) {t : Session}
    → process_recv m k rounds n s ≡ some t
    → accepted t ≡ accepted s
accepted-process_recv m k rounds n s e =
    process_recv_cases (λ t. accepted t ≡ accepted s) m k rounds n s (accepted-disconnect k _)
      (λ r. accepted-consume m k _ r) e

pub accepted-register_connect :
    (k : Kernel) (s : Session) → accepted (register_connect k s).0 ≡ accepted s
unfolding register_connect
accepted-register_connect k s = ground (arith, posted-quiet s.log Effect.connect_ex refl)

pub register_connect-IsSound :
    (k : Kernel) (s : Session) → IsSound s → IsSound (register_connect k s).0
unfolding register_connect
register_connect-IsSound k s v = ground arith
