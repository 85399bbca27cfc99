-- ===== src/Service/Releasing.antt =====
-- The set of a service has every session that is connected or about to be disconnected.
use cplus_server_core_model.Session.{
  Session, Kernel, Effect, process_connect, process_disconnect, make, ServiceType, register_recv,
}
use cplus_server_core_model.Session.Lifecycle.{
  registry, Calm, register_recv-Calm, send-Calm, process_send-Calm, process_recv-Calm,
  register_connect-Calm, disconnect-Calm,
}
use cplus_server_core_model.Service.{Service, add_session, release_session}
use cplus_server_core_model.Service.Registry.{
  Registry, Call, sends, sent, received, connects, connected, disconnects, disconnected, call,
  run_effects, perform, IsDue, Reach,
}
use cplus_server_core_model.Service.Accepting
use cplus_server_core_model.Prelude.{
  not, subst, sym, none, some, ◌||◌, ◌==◌, ℕ, List, Bool, Outcome, Option, [], ◌∷◌, true, false, ok,
  member, ◌≡◌, arith, ◌∙◌, ◌>>=◌, crash, stray, ◌≢◌, ap, refl, erase, insert, ◌-◌, member-insert,
  member-erase, if◌then◌else◌, some, subst, ◌==◌, sym,
}

-- The effects on the set, from the calls of AddSession and ReleaseSession alone.
unfoldable run_registry : ℕ → List Bool → Service → Outcome Service
run_registry c [] v = ok v
run_registry c (true ∷ bs) v = run_registry c bs (add_session c v)
run_registry c (false ∷ bs) v = release_session c v >>= λ v'. run_registry c bs v'

run_effects-registry :
    (c : ℕ) (es : List Effect) (v : Service) → run_effects c es v ≡ run_registry c (registry es) v
unfolding run_effects run_registry
run_effects-registry c [] v = refl
run_effects-registry c (Effect.add_session ∷ es) v = run_effects-registry c es (add_session c v)
run_effects-registry c (Effect.release_session ∷ es) v =
    go (release_session c v) (λ v'. run_effects-registry c es v')
  where
    go :
        (m : Outcome Service)
        → ((v' : Service) → run_effects c es v' ≡ run_registry c (registry es) v')
        → (m >>= λ v'. run_effects c es v') ≡ (m >>= λ v'. run_registry c (registry es) v')
    go (ok v') rest = rest v'
    go (crash e) rest = refl
    go stray rest = refl
run_effects-registry c (_ ∷ es) v = run_effects-registry c es v

-- A session, and whether the set has it.
record Fit (s : Session) (inside : Bool) : Type 0 where
  while_connected : s.connected ≡ true → inside ≡ true
  while_leaving : s.disconnect_owner ≡ true → inside ≡ true
  apart : s.disconnect_owner ≡ true → s.connected ≡ false

Calm-Fit : {s t : Session} {inside : Bool} → Calm s t → Fit s inside → Fit t inside
Calm-Fit c f = record {
  while_connected = ground (arith, c.life, f.while_connected);
  while_leaving = ground (arith, c.life, f.while_connected, f.while_leaving);
  apart = ground (arith, c.life, f.apart);
}

-- What one due call of the session `c` does to the set: it ends, with the session as the set then has it and the
-- others as before.
Serves : ℕ → Service → Session → Type 0
Serves c v s =
    (u : Service) × ((run_effects c s.log v ≡ ok u)
      × (Fit s (member c u.sessions))
      × ((d : ℕ) → d ≢ c → member d u.sessions ≡ member d v.sessions))

Calm-Serves :
    (c : ℕ) (v : Service) (s : Session) {t : Session}
    → Calm (record s { log = [] }) t
    → Fit s (member c v.sessions)
    → Serves c v t
unfolding Serves run_registry
Calm-Serves c v s {t} calm f = (
  v,
  (
    run_effects-registry c t.log v ∙ ap (λ bs. run_registry c bs v) calm.quiet,
    Calm-Fit calm (record {
      while_connected = f.while_connected;
      while_leaving = f.while_leaving;
      apart = f.apart;
    }),
    λ d ne. refl,
  ),
)

-- AddSession, and whatever Calm the rest of ProcessConnect is.
connected-Serves :
    (k : Kernel) (c : ℕ) (v : Service) (s : Session)
    → s.disconnect_owner ≡ false
    → Serves c v (process_connect k (record s { log = [] }))
unfolding Serves run_registry process_connect add_session
connected-Serves k c v s idle =
    let s' = record s {
      connect_owner = false;
      connected = true;
      log = Effect.add_session ∷ Effect.on_connected ∷ [];
    } in
    let t = register_recv k s' in
    let calm = register_recv-Calm k s' in
    let inside : member c (insert c v.sessions) ≡ true =
      ground (arith, member-insert c c v.sessions) in
    (
      add_session c v,
      (
        run_effects-registry c t.log v ∙ ap (λ bs. run_registry c bs v) calm.quiet,
        Calm-Fit calm (record {
          while_connected = λ h. inside;
          while_leaving = λ h. inside;
          apart = λ h. ground (arith, idle);
        }),
        λ d ne. ground (arith, member-insert d c v.sessions),
      ),
    )

disconnected-Serves :
    (c : ℕ) (v : Service) (s : Session)
    → s.disconnect_owner ≡ true
    → Fit s (member c v.sessions)
    → Serves c v (process_disconnect (record s { log = [] }))
unfolding Serves process_disconnect release_session run_effects
disconnected-Serves c v s leaving f =
    let v' = record v { sessions = erase c v.sessions; session_count = v.session_count - 1 } in
    let inside = f.while_leaving leaving in
    let released : release_session c v ≡ ok v' = ground (arith, inside) in
    (
      v',
      (
        ap (λ m. m >>= λ w. ok w) released,
        record {
          while_connected = ground (arith, f.apart leaving);
          while_leaving = ground arith;
          apart = ground arith;
        },
        λ d ne. ground (arith, member-erase d c v.sessions),
      ),
    )

AreFit : Registry → Type 0
AreFit r = (d : ℕ) → Fit (r.session d) (member d r.service.sessions)

some_inj : {A : Type 0} {a b : A} → some a ≡ some b → a ≡ b
some_inj e = cc

ok_inj : {A : Type 0} {a b : A} → ok a ≡ ok b → a ≡ b
ok_inj e = cc

call-Serves :
    (c : ℕ) (what : Call) (v : Service) (s : Session) {t : Session}
    → IsDue what s
    → Fit s (member c v.sessions)
    → call what (record s { log = [] }) ≡ some t
    → Serves c v t
unfolding call
call-Serves c (sends k b) v s due f e =
    subst (Serves c v) (some_inj e) (Calm-Serves c v s (send-Calm k b (record s { log = [] })) f)
call-Serves c (sent k n) v s due f e =
    subst (Serves c v) (some_inj e)
      (Calm-Serves c v s (process_send-Calm k n (record s { log = [] })) f)
call-Serves c (received m k rounds n) v s due f e =
    Calm-Serves c v s (process_recv-Calm m k rounds n (record s { log = [] }) e) f
call-Serves c (connects k) v s due f e =
    subst (Serves c v) (some_inj e)
      (Calm-Serves c v s (register_connect-Calm k (record s { log = [] })) f)
call-Serves c (connected k) v s due f e =
    subst (Serves c v) (some_inj e) (connected-Serves k c v s due.1)
call-Serves c (disconnects k) v s due f e =
    subst (Serves c v) (some_inj e)
      (Calm-Serves c v s (disconnect-Calm k (record s { log = [] })) f)
call-Serves c disconnected v s due f e =
    subst (Serves c v) (some_inj e) (disconnected-Serves c v s due f)

placed :
    (c d : ℕ) (u : Service) (s : Session) (r : Registry)
    → Fit s (member c u.sessions)
    → Fit (r.session d) (member d r.service.sessions)
    → (d ≢ c → member d u.sessions ≡ member d r.service.sessions)
    → Fit (if d == c then s else r.session d) (member d u.sessions)
placed c d u s r own fit other = go (d == c) refl
  where
    go : (b : Bool) → (d == c) ≡ b → Fit (if b then s else r.session d) (member d u.sessions)
    go true h =
        let same : c ≡ d = ground (arith, h) in subst (λ n. Fit s (member n u.sessions)) same own
    go false h =
        let kept : member d r.service.sessions ≡ member d u.sessions =
          sym (other (ground (arith, h))) in
        subst (Fit (r.session d)) kept fit

Performs : ℕ → Call → Registry → Type 0
Performs c what r = (t : Registry) × ((perform c what r ≡ some (ok t)) × (AreFit t))

perform-AreFit :
    (c : ℕ) (what : Call) (r : Registry) (s : Session)
    → AreFit r
    → IsDue what (r.session c)
    → call what (record (r.session c) { log = [] }) ≡ some s
    → Performs c what r
unfolding perform Performs AreFit Serves
perform-AreFit c what r s fit due e =
    let served : Serves c r.service s = call-Serves c what r.service (r.session c) due (fit c) e in
    go served
  where
    go : Serves c r.service s → Performs c what r
    go (u, (runs, own, others)) =
        let t : Registry = record {
          service = u;
          session = λ d. if d == c then s else r.session d;
        } in
        (t, (ground (arith, e, runs), λ d. placed c d u s r own (fit d) (others d)))

later-AreFit :
    (c : ℕ) (what : Call) (r t : Registry)
    → AreFit r
    → IsDue what (r.session c)
    → perform c what r ≡ some (ok t)
    → AreFit t
unfolding perform Performs
later-AreFit c what r t fit due e = go (call what (record (r.session c) { log = [] })) refl
  where
    from : Performs c what r → AreFit t
    from (t', (runs, fit')) = subst AreFit (ok_inj (some_inj (sym runs ∙ e))) fit'

    go : (m : Option Session) → call what (record (r.session c) { log = [] }) ≡ m → AreFit t
    go none h = ground (arith, h, e)
    go (some s) h = from (perform-AreFit c what r s fit due h)

Reach-AreFit : {init r : Registry} → AreFit init → Reach init r → AreFit r
Reach-AreFit fit Reach.start = fit
Reach-AreFit fit (Reach.later {r} {t} c what run due e) =
    later-AreFit c what r t (Reach-AreFit fit run) due e

-- A service with no sessions yet, and the sessions that its factory makes.
abbrev pub initial : ServiceType → ℕ → Registry
initial type max = record { service = Accepting.make max; session = λ c. make type }

initial-AreFit : (type : ServiceType) (max : ℕ) → AreFit (initial type max)
unfolding AreFit make
initial-AreFit type max d = record {
  while_connected = ground arith;
  while_leaving = ground arith;
  apart = ground arith;
}

-- However the methods of the sessions were called before, each call that is due ends without the crash of
-- ReleaseSession if the method itself comes to its end; and every session that is connected then, or about
-- to be disconnected, is in the set of the service.
pub release-safe :
    (type : ServiceType) (max c : ℕ) (what : Call) (r : Registry) (s : Session)
    → Reach (initial type max) r
    → IsDue what (r.session c)
    → call what (record (r.session c) { log = [] }) ≡ some s
    → (t : Registry) × ((perform c what r ≡ some (ok t))
        × ((d : ℕ)
            → (not ((t.session d).connected || (t.session d).disconnect_owner)
                || member d t.service.sessions)
              ≡ true))
unfolding Performs AreFit
release-safe type max c what r s run due e =
    go (perform-AreFit c what r s (Reach-AreFit (initial-AreFit type max) run) due e)
  where
    go :
        Performs c what r
        → (t : Registry) × ((perform c what r ≡ some (ok t))
            × ((d : ℕ)
                → (not ((t.session d).connected || (t.session d).disconnect_owner)
                    || member d t.service.sessions)
                  ≡ true))
    go (t, (runs, fit)) =
        (t, (runs, λ d. ground (arith, (fit d).while_connected, (fit d).while_leaving)))
