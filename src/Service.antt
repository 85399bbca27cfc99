-- ===== src/Service.antt =====
-- ServerCore/Service.{h,cpp} and ServerCore/Listener.{h,cpp}: the sessions of a service, and the accept events with
-- which a server gets new ones. A session is the number of the call of the factory that made it.
-- What Windows answers is a parameter; a method runs without interruption, under the service's lock.
pub mod Readiness
pub mod Accepting
pub mod Registry
pub mod Releasing
pub mod Tests
use cplus_server_core_model.Prelude.{
  [], ◌∷◌, zero, suc, ℕ, List, Outcome, insert, erase, member, Bool, ◌+◌, if◌then◌else◌, ◌++◌,
  Option, ok, map, some, false, ◌==◌, none, ◌-◌, true, stray, crash, [], assert_crash, ◌&&◌, not,
  ◌>>=◌,
}

-- Also the listener: `events` is `_acceptEvents`, `session_of` the session in an event, and `posted`
-- the events that the kernel has. `session_count` is an int32, and less than 2^31 sessions fit.
pub record Service : Type 0 where
  pub has_factory : Bool
  pub max_session_count : ℕ
  pub sessions : List ℕ
  pub session_count : ℕ
  pub made : ℕ
  pub events : List ℕ
  pub session_of : ℕ → ℕ
  pub posted : List ℕ
  pub sent : List (ℕ × List ℕ)

unfoldable pub add_session : ℕ → Service → Service
add_session s v = record v { session_count = v.session_count + 1; sessions = insert s v.sessions }

unfoldable pub release_session : ℕ → Service → Outcome Service
release_session s v =
    if member s v.sessions
    then ok (record v { sessions = erase s v.sessions; session_count = v.session_count - 1 })
    else crash assert_crash

unfoldable broadcast : List ℕ → Service → Service
broadcast packet v = record v { sent = v.sent ++ map (λ s. (s, packet)) v.sessions }

-- What Windows says to one round of RegisterAccept: the port refuses the session, `AcceptEx` takes
-- the event (at once, or with WSA_IO_PENDING), or it fails.
pub data Answer : Type 0 where
  refused taken failed : Answer

-- `CreateSession`, where the port takes the session or does not.
unfoldable pub create_session : Bool → Service → Option ℕ × Service
create_session registered v =
    (if registered then some v.made else none, record v { made = v.made + 1 })

abbrev pub is_registered : Answer → Bool
is_registered refused = false
is_registered taken = true
is_registered failed = true

abbrev pub hold : ℕ → ℕ → Service → Service
hold event s v = record v { session_of = λ e. if e == event then s else v.session_of e }

-- `RegisterAccept`, with the answers that the rounds get. A null session is dereferenced.
-- `none`: the answers ran out before a round came to its end.
unfoldable pub register_accept : List Answer → ℕ → Service → Option (Outcome Service)
unfolding create_session
register_accept [] event v = none
register_accept (answer ∷ answers) event v =
    let created = create_session (is_registered answer) v in
    elim created.0 [
      | none ↦ some stray
      | some session ↦ elim answer [
        | refused ↦ some stray
        | taken ↦
            some (ok (record (hold event session created.1) { posted = insert event v.posted }))
        | failed ↦ register_accept answers event (hold event session created.1)
      ]
    ]

-- `Dispatch` of the listener and `ProcessAccept`: the kernel hands an event back. The two Booleans are the success of
-- `SetUpdateAcceptSocket` and of `getpeername`; ProcessConnect of the session adds it to the service.
unfoldable pub process_accept : Bool → Bool → List Answer → ℕ → Service → Option (Outcome Service)
unfolding register_accept add_session
process_accept updated has_peer answers event v =
    let v' = record v { posted = erase event v.posted } in
    if updated && has_peer
    then register_accept answers event (add_session (v'.session_of event) v')
    else register_accept answers event v'

-- The loop of StartAccept from the event `i` on; an event is the number of its round.
unfoldable pub accept_all : ℕ → ℕ → (ℕ → List Answer) → Service → Option (Outcome Service)
unfolding register_accept
accept_all zero i answers v = some (ok v)
accept_all (suc left) i answers v =
    elim (register_accept (answers i) i (record v { events = v.events ++ i ∷ [] })) [
      | none ↦ none
      | some (ok v') ↦ accept_all left (i + 1) answers v'
      | some (crash c) ↦ some (crash c)
      | some stray ↦ some stray
    ]

abbrev pub all : List Bool → Bool
all [] = true
all (b ∷ bs) = b && all bs

abbrev pub has_started : Option (Outcome Service) → Option (Outcome (Bool × Service))
has_started none = none
has_started (some m) = some (m >>= λ v. ok (true, v))

-- `ServerService::Start` and `Listener::StartAccept`. `setup` is the success of the listener's
-- construction, of `CreateSocket`, `Register`, `SetReuseAddress`, `SetLinger`, `Bind` and `Listen`.
unfoldable pub start_server :
    List Bool → (ℕ → List Answer) → Service → Option (Outcome (Bool × Service))
unfolding accept_all
start_server setup answers v =
    let started = accept_all v.max_session_count 0 answers v in
    if not v.has_factory
    then some (ok (false, v))
    else if not (all setup)
    then some (ok (false, v))
    else has_started started

-- `ClientService::Start`, with the success of `Register` and of `Connect` for each session.
unfoldable connect_all : ℕ → List (Bool × Bool) → Service → Option (Outcome (Bool × Service))
unfolding create_session
connect_all zero answers v = some (ok (true, v))
connect_all (suc left) [] v = none
connect_all (suc left) ((registered, connected) ∷ answers) v =
    let created = create_session registered v in
    let rest = connect_all left answers created.1 in
    elim created.0 [
      | none ↦ some stray
      | some session ↦ if connected then rest else some (ok (false, created.1))
    ]

unfoldable start_client : List (Bool × Bool) → Service → Option (Outcome (Bool × Service))
unfolding connect_all
start_client answers v =
    let started = connect_all v.max_session_count answers v in
    if v.has_factory then started else some (ok (false, v))
