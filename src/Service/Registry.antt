-- ===== src/Service/Registry.antt =====
-- The sessions of a service and the service itself: each call of a method of ServerCore/Session.{h,cpp}, with
-- the calls of AddSession and ReleaseSession of ServerCore/Service.cpp that it makes. A session is a number.
use cplus_server_core_model.Recv.{Memcpy}
use cplus_server_core_model.Session.{
  Session, Kernel, Effect, send, process_send, disconnect, process_connect, process_disconnect,
  process_recv, register_connect,
}
use cplus_server_core_model.Service.{Service, add_session, release_session}
use cplus_server_core_model.Prelude.{
  ◌∷◌, [], ℕ, List, Outcome, Option, ok, some, [], ◌≡◌, ◌>>=◌, false, none, true, if◌then◌else◌,
  ◌==◌,
}

pub record Registry : Type 0 where
  pub service : Service
  pub session : ℕ → Session

-- A method that somebody calls: the program, or `Session::Dispatch` with a completion.
pub data Call : Type 0 where
  sends : Kernel → (buffer : List ℕ) → Call
  sent : Kernel → (num_of_bytes : ℕ) → Call
  received : Memcpy → Kernel → (rounds num_of_bytes : ℕ) → Call
  connects : Kernel → Call
  connected : Kernel → Call
  disconnects : Kernel → Call
  disconnected : Call

unfoldable pub call : Call → Session → Option Session
unfolding send process_send process_recv register_connect process_connect disconnect
    process_disconnect
call (sends k buffer) s = some (send k buffer s)
call (sent k n) s = some (process_send k n s)
call (received m k rounds n) s = process_recv m k rounds n s
call (connects k) s = some (register_connect k s).0
call (connected k) s = some (process_connect k s)
call (disconnects k) s = some (disconnect k s)
call disconnected s = some (process_disconnect s)

-- What a session does to its service, in order.
unfoldable pub run_effects : ℕ → List Effect → Service → Outcome Service
unfolding add_session release_session
run_effects c [] v = ok v
run_effects c (Effect.add_session ∷ es) v = run_effects c es (add_session c v)
run_effects c (Effect.release_session ∷ es) v = do v' ← release_session c v; run_effects c es v'
run_effects c (_ ∷ es) v = run_effects c es v

-- One call of a method of the session `c`; `none` if OnRecv does not come to its end in the rounds.
unfoldable pub perform : ℕ → Call → Registry → Option (Outcome Registry)
unfolding call run_effects
perform c what r = elim (call what (record (r.session c) { log = [] })) [
  | none ↦ none
  | some s ↦ some (
      run_effects c s.log r.service >>= λ v.
      ok (record { service = v; session = λ d. if d == c then s else r.session d }))
]

-- Windows completes a request to connect, and an accept, only for a session that is not connected and
-- not about to be disconnected, and a request to disconnect only while one is under way.
abbrev pub IsDue : Call → Session → Type 0
IsDue (sends k buffer) s = Unit
IsDue (sent k n) s = Unit
IsDue (received m k rounds n) s = Unit
IsDue (connects k) s = Unit
IsDue (connected k) s = (s.connected ≡ false) × (s.disconnect_owner ≡ false)
IsDue (disconnects k) s = Unit
IsDue disconnected s = s.disconnect_owner ≡ true

pub data Reach (init : Registry) : Registry → Type 0 where
  start : Reach init init
  later :
      {r t : Registry} (c : ℕ) (what : Call)
      → Reach init r
      → IsDue what (r.session c)
      → perform c what r ≡ some (ok t)
      → Reach init t
