-- ===== src/Session/Lifecycle.antt =====
-- What the methods of a session do to its connection: all but ProcessConnect and ProcessDisconnect leave it,
-- or end it, and do not touch the set of the service.
use cplus_server_core_model.Session.{
  Session, Kernel, Effect, disconnect, handle_error, register_recv, register_send, send,
  register_connect, register_disconnect, consume, process_recv, process_send,
}
use cplus_server_core_model.Packet.{Received}
use cplus_server_core_model.Recv.{Memcpy}
use cplus_server_core_model.Recv
use cplus_server_core_model.Session.Sending.{process_recv_cases}
use cplus_server_core_model.Prelude.{
  ℕ, List, Bool, [], ◌∷◌, ◌++◌, true, false, ◌≡◌, ◌⊎◌, map, arith, refl, ◌∙◌, ap, append-nil,
}
use mathlib.Core.Option.{some}

-- The calls of AddSession (`true`) and of ReleaseSession (`false`) among the effects.
abbrev pub registry : List Effect → List Bool
registry [] = []
registry (Effect.add_session ∷ es) = true ∷ registry es
registry (Effect.release_session ∷ es) = false ∷ registry es
registry (_ ∷ es) = registry es

registry-append : (xs ys : List Effect) → registry (xs ++ ys) ≡ registry xs ++ registry ys
registry-append [] ys = refl
registry-append (Effect.add_session ∷ xs) ys = ap (◌∷◌ true) (registry-append xs ys)
registry-append (Effect.release_session ∷ xs) ys = ap (◌∷◌ false) (registry-append xs ys)
registry-append (_ ∷ xs) ys = registry-append xs ys

registry-map : (ps : List (List ℕ)) → registry (map Effect.on_recv_packet ps) ≡ []
registry-map [] = refl
registry-map (p ∷ ps) = registry-map ps

quiet_behind : (es more : List Effect) → registry more ≡ [] → registry (es ++ more) ≡ registry es
quiet_behind es more h = registry-append es more ∙ (ap (λ r. registry es ++ r) h ∙ append-nil _)

quiet_one :
    (es : List Effect) (e : Effect) → registry (e ∷ []) ≡ [] → registry (es ++ e ∷ []) ≡ registry es
quiet_one es e h = quiet_behind es (e ∷ []) h

-- The connection is as it was, or it was there and is there no more.
pub record Calm (s t : Session) : Type 0 where
  pub life :
      ((t.connected ≡ s.connected) × (t.disconnect_owner ≡ s.disconnect_owner))
      ⊎ ((s.connected ≡ true) × (t.connected ≡ false))
  pub quiet : registry t.log ≡ registry s.log

pub disconnect-Calm : (k : Kernel) (s : Session) → Calm s (disconnect k s)
unfolding disconnect register_disconnect
disconnect-Calm k s = record {
  life = ground arith;
  quiet = ground (arith, quiet_one s.log Effect.disconnect_ex refl);
}

handle_error-Calm : (k : Kernel) (err : ℕ) (s : Session) → Calm s (handle_error k err s)
unfolding handle_error
handle_error-Calm k err s =
    let c = disconnect-Calm k s in
    record { life = ground (arith, c.life); quiet = ground (arith, c.quiet) }

-- With one more effect behind, and then perhaps a request to disconnect.
pub register_recv-Calm : (k : Kernel) (s : Session) → Calm s (register_recv k s)
unfolding register_recv
register_recv-Calm k s =
    let e = Effect.wsa_recv (Recv.free_size s.recv_buffer) in
    record {
      life = ground arith;
      quiet =
          ground
            (arith, quiet_one s.log e refl, quiet_one (s.log ++ e ∷ []) Effect.disconnect_ex refl);
    }

pub register_send-Calm : (k : Kernel) (s : Session) → Calm s (register_send k s)
unfolding register_send
register_send-Calm k s =
    let e = Effect.wsa_send (s.send_buffers ++ s.send_queue) in
    record {
      life = ground arith;
      quiet =
          ground
            (arith, quiet_one s.log e refl, quiet_one (s.log ++ e ∷ []) Effect.disconnect_ex refl);
    }

pub send-Calm : (k : Kernel) (b : List ℕ) (s : Session) → Calm s (send k b s)
unfolding send
send-Calm k b s =
    let s' = record s { send_queue = s.send_queue ++ b ∷ []; send_registered = true } in
    let c = register_send-Calm k s' in
    record { life = ground (arith, c.life); quiet = ground (arith, c.quiet) }

pub process_send-Calm : (k : Kernel) (n : ℕ) (s : Session) → Calm s (process_send k n s)
unfolding process_send
process_send-Calm k n s =
    let s' = record s { send_owner = false; send_buffers = [] } in
    let told = record s' { log = s.log ++ Effect.on_send n ∷ [] } in
    let c = register_send-Calm k told in
    let d = disconnect-Calm k s' in
    record {
      life = ground (arith, c.life, d.life);
      quiet = ground (arith, c.quiet, d.quiet, quiet_one s.log (Effect.on_send n) refl);
    }

pub register_connect-Calm : (k : Kernel) (s : Session) → Calm s (register_connect k s).0
unfolding register_connect
register_connect-Calm k s = record {
  life = ground arith;
  quiet = ground (arith, quiet_one s.log Effect.connect_ex refl);
}

Calm-trans : {s t u : Session} → Calm s t → Calm t u → Calm s u
Calm-trans c d = record { life = ground (arith, c.life, d.life); quiet = d.quiet ∙ c.quiet }

pub consume-Calm : (m : Memcpy) (k : Kernel) (s : Session) (r : Received) → Calm s (consume m k s r)
unfolding consume
consume-Calm m k s r =
    let s' = record s { log = s.log ++ map Effect.on_recv_packet r.packets } in
    let read = (Recv.on_read r.process_len s.recv_buffer).0 in
    let same : registry s'.log ≡ registry s.log =
      quiet_behind s.log (map Effect.on_recv_packet r.packets) (registry-map r.packets) in
    let c = disconnect-Calm k s' in
    let d = register_recv-Calm k (record s' { recv_buffer = Recv.clean m read }) in
    record { life = ground (arith, c.life, d.life); quiet = ground (arith, c.quiet, d.quiet, same) }

pub process_recv-Calm :
    (m : Memcpy) (k : Kernel) (rounds n : ℕ) (s : Session) {t : Session}
    → process_recv m k rounds n s ≡ some t
    → Calm s t
process_recv-Calm m k rounds n s e =
    process_recv_cases (Calm s) m k rounds n s
      (let c = disconnect-Calm k (record s { recv_owner = false }) in
        record { life = c.life; quiet = c.quiet })
      (λ r.
        let c =
          consume-Calm m k
            (record s { recv_owner = false; recv_buffer = (Recv.on_write n s.recv_buffer).0 }) r in
        record { life = c.life; quiet = c.quiet })
      e
