-- ===== src/Service/Accepting.antt =====
-- What holds of a server's accept events and sessions, whatever Windows answers.
use cplus_server_core_model.Service.{
  Service, Answer, register_accept, process_accept, add_session, release_session, accept_all,
  start_server, all, has_started, create_session, hold,
}
use cplus_server_core_model.Prelude.{
  stray, ◌∷◌, [], ℕ, List, Outcome, Finishes, Finishes-ok, Ends, Ends-ok, member, Bool, ◌≡◌, true,
  false, ◌<◌, ◌==◌, length, ◌||◌, ◌+◌, [], arith, not, ◌&&◌, refl, erase, member-erase, ltb,
  Finishes-then, suc, if◌then◌else◌, ◌++◌, Option, none, some, ok, crash, ◌-◌, Cause,
  erase-AreApart, length-erase, zero, ◌↔◌, ap,
}
use cplus_server_core_model.Service.Readiness.{
  Ready, Ready-same, register_accept-Ready, taken_back-Ready, add_session-Ready,
}

-- The events of all rounds of StartAccept.
abbrev pub below : ℕ → ℕ → Bool
below max e = ltb e max

process_accept-Ready :
    (max : ℕ) (updated has_peer : Bool) (answers : List Answer) (event : ℕ) (v : Service)
    → Ready (below max) v
    → member event v.posted ≡ true
    → Finishes (Ready (below max)) (process_accept updated has_peer answers event v)
unfolding process_accept
process_accept-Ready max updated has_peer answers event v a i = go (updated && has_peer)
  where
    wanted : ℕ → Bool
    wanted e = not (e == event) && below max e

    left : Service
    left = record v { posted = erase event v.posted }

    again :
        (u : Service)
        → Ready wanted u
        → Finishes (Ready (below max)) (register_accept answers event u)
    again u b =
        Finishes-then
          (λ u' c.
            Ready-same (λ e. e == event || wanted e) (below max) u'
              (λ e. ground (arith, a.posted event)) c)
          (register_accept answers event u)
          (register_accept-Ready answers event wanted u b (ground arith))

    go :
        (both : Bool)
        → Finishes (Ready (below max)) (
            if both
            then register_accept answers event (add_session (v.session_of event) left)
            else register_accept answers event left)
    go true = again _ (add_session-Ready event (below max) v a i)
    go false = again left (taken_back-Ready event (below max) v a)

accept_all-Ready :
    (left i : ℕ) (answers : ℕ → List Answer) (v : Service)
    → Ready (below i) v
    → Finishes (Ready (below (i + left))) (accept_all left i answers v)
unfolding accept_all
accept_all-Ready zero i answers v a = let e : i ≡ i + 0 = omega arith in rw e at a
accept_all-Ready (suc left) i answers v a =
    go (register_accept (answers i) i v')
      (register_accept-Ready (answers i) i (below i) v' b (ground arith))
      (λ u c. accept_all-Ready left (i + 1) answers u c)
  where
    v' : Service
    v' = record v { events = v.events ++ i ∷ [] }

    b : Ready (below i) v'
    b = record {
      posted = a.posted;
      fresh = a.fresh;
      held = a.held;
      outside = a.outside;
      single = a.single;
      once = a.once;
      counted = a.counted;
    }

    go :
        (m : Option (Outcome Service))
        → Finishes (Ready (λ e. e == i || below i e)) m
        → ((u : Service)
            → Ready (below (i + 1)) u
            → Finishes (Ready (below (i + 1 + left))) (accept_all left (i + 1) answers u))
        → Finishes (Ready (below (i + suc left))) (elim m [
          | none ↦ none
          | some (ok u) ↦ accept_all left (i + 1) answers u
          | some (crash c) ↦ some (crash c)
          | some stray ↦ some stray
        ])
    go none h rest = tt
    go (some (crash c)) h rest = tt
    go (some stray) h rest = tt
    go (some (ok u)) h rest =
        let e : i + 1 + left ≡ i + suc left = omega arith in
        rw e at
          (rest u (Ready-same (λ e. e == i || below i e) (below (i + 1)) u (λ e. ground arith) h))

release_session-Ready :
    (s max : ℕ) (v : Service) → Ready (below max) v → Ends (Ready (below max)) (release_session s v)
unfolding release_session
release_session-Ready s max v a = go (member s v.sessions) refl
  where
    go :
        (found : Bool)
        → member s v.sessions ≡ found
        → Ends (Ready (below max)) (
            if found
            then ok
                (record v { sessions = erase s v.sessions; session_count = v.session_count - 1 })
            else crash Cause.assert_crash)
    go false h = tt
    go true h = record {
      posted = a.posted;
      fresh = λ t i. ground (arith, a.fresh t, member-erase t s v.sessions);
      held = a.held;
      outside = λ e i. ground (arith, a.outside e i, member-erase (v.session_of e) s v.sessions);
      single = a.single;
      once = erase-AreApart s v.sessions a.once;
      counted = ground (arith, a.counted, length-erase s v.sessions h a.once);
    }

-- A server that has started, and then the completions of its accept events and the sessions that
-- disconnect, in any order.
pub data Run (init : Service) : Service → Type 0 where
  starts :
      (setup : List Bool) (answers : ℕ → List Answer) {v : Service}
      → start_server setup answers init ≡ some (ok (true, v))
      → Run init v
  accepts :
      {v u : Service} (updated has_peer : Bool) (answers : List Answer) (event : ℕ)
      → Run init v
      → member event v.posted ≡ true
      → process_accept updated has_peer answers event v ≡ some (ok u)
      → Run init u
  releases : {v u : Service} (s : ℕ) → Run init v → release_session s v ≡ ok u → Run init u

-- A service of a server before it starts.
abbrev pub make : ℕ → Service
make max = record {
  has_factory = true;
  max_session_count = max;
  sessions = [];
  session_count = 0;
  made = 0;
  events = [];
  session_of = λ e. 0;
  posted = [];
  sent = [];
}

make-Ready : (max : ℕ) → Ready (below 0) (make max)
make-Ready max = record {
  posted = λ e. ground arith;
  fresh = λ s i. ground arith;
  held = λ e i. ground arith;
  outside = λ e i. refl;
  single = λ e d i j same. ground arith;
  once = tt;
  counted = refl;
}

start_server-Ready :
    (max : ℕ) (setup : List Bool) (answers : ℕ → List Answer)
    → Finishes (λ r. (r.0 ≡ true) → Ready (below max) r.1) (start_server setup answers (make max))
unfolding start_server
start_server-Ready max setup answers = go (not (all setup))
  where
    begun :
        (m : Option (Outcome Service))
        → Finishes (Ready (below max)) m
        → Finishes (λ r. (r.0 ≡ true) → Ready (below max) r.1) (has_started m)
    begun none h = tt
    begun (some (ok v)) h = λ e. h
    begun (some (crash c)) h = tt
    begun (some stray) h = tt

    go :
        (bad : Bool)
        → Finishes
            (λ r. (r.0 ≡ true) → Ready (below max) r.1)
            (if bad
              then some (ok (false, make max))
              else has_started (accept_all max 0 answers (make max)))
    go true = λ e. ground arith
    go false =
        let e : 0 + max ≡ max = omega arith in
        begun (accept_all max 0 answers (make max))
          (rw e at (accept_all-Ready max 0 answers (make max) (make-Ready max)))

Run-Ready : (max : ℕ) {v : Service} → Run (make max) v → Ready (below max) v
Run-Ready max (Run.starts setup answers h) =
    Finishes-ok (λ r. (r.0 ≡ true) → Ready (below max) r.1) h (start_server-Ready max setup answers)
      refl
Run-Ready max (Run.accepts {v = v} updated has_peer answers event run i h) =
    Finishes-ok (Ready (below max)) h
      (process_accept-Ready max updated has_peer answers event v (Run-Ready max run) i)
Run-Ready max (Run.releases {v = v} s run h) =
    Ends-ok (Ready (below max)) h (release_session-Ready s max v (Run-Ready max run))

-- Rounds in which AcceptEx fails, and one in which it takes the event.
abbrev pub taken_after : ℕ → List Answer
taken_after zero = Answer.taken ∷ []
taken_after (suc failures) = Answer.failed ∷ taken_after failures

register_accept-returns :
    (failures event : ℕ) (v : Service)
    → (u : Service) × (register_accept (taken_after failures) event v ≡ some (ok u))
unfolding register_accept create_session
register_accept-returns zero event v = (_, refl)
register_accept-returns (suc failures) event v =
    register_accept-returns failures event (hold event v.made (record v { made = v.made + 1 }))

process_accept-returns :
    (updated has_peer : Bool) (failures event : ℕ) (v : Service)
    → (u : Service) × (process_accept updated has_peer (taken_after failures) event v ≡ some (ok u))
unfolding process_accept
process_accept-returns true true failures event v = register_accept-returns failures event _
process_accept-returns true false failures event v = register_accept-returns failures event _
process_accept-returns false has_peer failures event v = register_accept-returns failures event _

-- Once a server has started, and however many sessions have come and gone since, the kernel has
-- exactly the accept events of the largest number of sessions, each with a session of its own, and
-- the number of sessions is that of the set. When the kernel hands an event back, with or without a new
-- session, ProcessAccept returns with the event posted again, after any number of failures of
-- AcceptEx, if a round succeeds at last.
pub Run-accepting :
    (max : ℕ) (v : Service) (e d : ℕ) (updated has_peer : Bool) (failures : ℕ)
    → Run (make max) v
    → e < max
    → d < max
    → ((k : ℕ) → member k v.posted ≡ ltb k max)
      × ((v.session_of e ≡ v.session_of d) ↔ (e ≡ d))
      × (v.session_count ≡ length v.sessions)
      × ((u : Service) × ((process_accept updated has_peer (taken_after failures) e v ≡ some (ok u))
            × (member e u.posted ≡ true)))
Run-accepting max v e d updated has_peer failures run below_e below_d =
    let a = Run-Ready max run in
    let here : member e v.posted ≡ true = ground (arith, a.posted e) in
    let there : member d v.posted ≡ true = ground (arith, a.posted d) in
    let back = process_accept-returns updated has_peer failures e v in
    let again = Run.accepts updated has_peer (taken_after failures) e run here back.1 in
    let posted : member e back.0.posted ≡ true = ground (arith, (Run-Ready max again).posted e) in
    (
      a.posted,
      (λ same. a.single e d here there same, λ same. ap v.session_of same),
      a.counted,
      (back.0, (back.1, posted)),
    )
