-- ===== src/Service/Tests.antt =====
-- A server with two accept events, of which the second fails once and is then completed.
use cplus_server_core_model.Service.{
  Service, Answer, register_accept, process_accept, start_server, accept_all, add_session,
  create_session,
}
use cplus_server_core_model.Service.Registry.{Registry, Call, Reach, call, perform, run_effects}
use cplus_server_core_model.Service.Releasing.{initial, release-safe}
use cplus_server_core_model.Recv
use cplus_server_core_model.Session
use cplus_server_core_model.Session.{
  Session, Kernel, CallResult, ServiceType, Effect, process_connect, process_disconnect, disconnect,
  register_recv,
}
use Prim.{tt}
use cplus_server_core_model.Prelude.{not, ◌||◌}
use cplus_server_core_model.Service.Accepting.{taken_after, Run, make, Run-accepting}
use cplus_server_core_model.Prelude.{
  ℕ, List, [], ◌∷◌, insert, erase, member, true, ◌≡◌, if◌then◌else◌, refl, some, ltb, ◌==◌, ok,
  length, ◌↔◌, false, arith,
}
use cplus_server_core_model.Recv.{free_size}

abbrev answers : ℕ → List Answer
answers e = if e == 0 then Answer.taken ∷ [] else Answer.failed ∷ Answer.taken ∷ []

abbrev started : Service
started = record (make 2) {
  made = 3;
  events = 0 ∷ 1 ∷ [];
  session_of = λ e. if e == 1 then 2 else if e == 1 then 1 else if e == 0 then 0 else 0;
  posted = 0 ∷ 1 ∷ [];
}

started-Run : Run (make 2) started
unfolding start_server accept_all register_accept create_session insert
started-Run = Run.starts [] answers refl

abbrev served : Service
served = record started {
  made = 4;
  sessions = 2 ∷ [];
  session_count = 1;
  session_of = λ e. if e == 1 then 3 else started.session_of e;
}

served_lem : process_accept true true (Answer.taken ∷ []) 1 started ≡ some (ok served)
unfolding process_accept register_accept create_session add_session insert erase
served_lem = refl

Run-accepting_example :
    ((k : ℕ) → member k (0 ∷ 1 ∷ []) ≡ ltb k 2)
    × ((served.session_of 0 ≡ served.session_of 1) ↔ (◌≡◌ {A = ℕ} 0 1))
    × (served.session_count ≡ length served.sessions)
    × ((u : Service) × ((process_accept true false (taken_after 5) 0 served ≡ some (ok u))
          × (member 0 u.posted ≡ true)))
Run-accepting_example =
    Run-accepting 2 served 0 1 true false 5
      (Run.accepts true true (Answer.taken ∷ []) 1 started-Run refl served_lem) (omega arith)
      (omega arith)

abbrev willing : Kernel
willing = record {
  set_reuse_address = true;
  bind_any_address = true;
  connect_ex = CallResult.success;
  disconnect_ex = CallResult.success;
  wsa_recv = CallResult.success;
  wsa_send = CallResult.success;
}

abbrev joined_session : Session
joined_session = record (Session.make ServiceType.server) {
  connected = true;
  recv_owner = true;
  log =
      Effect.add_session
      ∷ Effect.on_connected
      ∷ Effect.wsa_recv (Recv.free_size (Recv.make Session.buffer_size))
      ∷ [];
}

abbrev joined : Registry
joined = record {
  service = record (make 2) { sessions = 7 ∷ []; session_count = 1 };
  session = λ d. if d == 7 then joined_session else Session.make ServiceType.server;
}

abbrev leaving_session : Session
leaving_session = record joined_session {
  connected = false;
  disconnect_owner = true;
  log = Effect.disconnect_ex ∷ [];
}

abbrev leaving : Registry
leaving = record {
  service = joined.service;
  session = λ d. if d == 7 then leaving_session else joined.session d;
}

leaving-Reach : Reach (initial ServiceType.server 2) leaving
unfolding perform call run_effects process_connect disconnect register_recv Session.make add_session
    insert
leaving-Reach =
    Reach.later 7 (Call.disconnects willing)
      (Reach.later {t = joined} 7 (Call.connected willing) Reach.start (refl, refl) refl) tt refl

release-safe_example :
    (t : Registry) × ((perform 7 Call.disconnected leaving ≡ some (ok t))
      × ((d : ℕ)
          → (not ((t.session d).connected || (t.session d).disconnect_owner)
              || member d t.service.sessions)
            ≡ true))
unfolding call
release-safe_example =
    release-safe ServiceType.server 2 7 Call.disconnected leaving
      (process_disconnect (record leaving_session { log = [] })) leaving-Reach refl refl
