-- ===== src/Service/Readiness.antt =====
-- Accept events with sessions of their own: what one round of the listener keeps.
use cplus_server_core_model.Service.{
  Service, Answer, register_accept, add_session, create_session, hold,
}
use cplus_server_core_model.Prelude.{
  ◌∷◌, [], ℕ, List, Finishes, member, AreApart, Bool, ◌≡◌, true, false, ◌<◌, ◌==◌, length, ◌||◌,
  ◌+◌, [], arith, insert, not, member-insert, ◌&&◌, erase, member-erase, insert-AreApart,
  length-insert, ◌∙◌,
}

-- The posted events are the wanted ones, each with a session of its own that is not in the set yet.
pub record Ready (wanted : ℕ → Bool) (v : Service) : Type 0 where
  pub posted : (e : ℕ) → member e v.posted ≡ wanted e
  pub fresh : (s : ℕ) → member s v.sessions ≡ true → s < v.made
  pub held : (e : ℕ) → member e v.posted ≡ true → v.session_of e < v.made
  pub outside : (e : ℕ) → member e v.posted ≡ true → member (v.session_of e) v.sessions ≡ false
  pub single :
      (e d : ℕ)
      → member e v.posted ≡ true
      → member d v.posted ≡ true
      → v.session_of e ≡ v.session_of d
      → e ≡ d
  pub once : AreApart v.sessions
  pub counted : v.session_count ≡ length v.sessions

pub Ready-same : (f g : ℕ → Bool) (v : Service) → ((e : ℕ) → f e ≡ g e) → Ready f v → Ready g v
Ready-same f g v same a = record {
  posted = λ e. a.posted e ∙ same e;
  fresh = a.fresh;
  held = a.held;
  outside = a.outside;
  single = a.single;
  once = a.once;
  counted = a.counted;
}

-- A session that no event has posted yet.
pub hold-Ready :
    (event : ℕ) (wanted : ℕ → Bool) (v : Service)
    → Ready wanted v
    → wanted event ≡ false
    → Ready wanted (hold event v.made (record v { made = v.made + 1 }))
hold-Ready event wanted v a h = record {
  posted = a.posted;
  fresh = λ s i. omega (arith, a.fresh s i);
  held = λ e i. ground (arith, a.held e i);
  outside = λ e i. ground (arith, a.outside e i, a.posted event);
  single = λ e d i j same. ground (arith, a.single e d i j, a.posted event);
  once = a.once;
  counted = a.counted;
}

pub taken-Ready :
    (event : ℕ) (wanted : ℕ → Bool) (v : Service)
    → Ready wanted v
    → wanted event ≡ false
    → Ready
        (λ e. e == event || wanted e)
        (record (hold event v.made (record v { made = v.made + 1 })) {
          posted = insert event v.posted;
        })
taken-Ready event wanted v a h = record {
  posted = λ e. ground (arith, a.posted e, member-insert e event v.posted);
  fresh = λ s i. omega (arith, a.fresh s i);
  held = λ e i. ground (arith, a.held e, member-insert e event v.posted);
  outside = λ e i. ground (arith, a.outside e, a.fresh v.made, member-insert e event v.posted);
  single = λ e d i j same. ground (
    arith,
    a.single e d,
    a.held e,
    a.held d,
    member-insert e event v.posted,
    member-insert d event v.posted,
  );
  once = a.once;
  counted = a.counted;
}

pub register_accept-Ready :
    (answers : List Answer) (event : ℕ) (wanted : ℕ → Bool) (v : Service)
    → Ready wanted v
    → wanted event ≡ false
    → Finishes (Ready (λ e. e == event || wanted e)) (register_accept answers event v)
unfolding register_accept create_session
register_accept-Ready [] event wanted v a h = tt
register_accept-Ready (Answer.refused ∷ answers) event wanted v a h = tt
register_accept-Ready (Answer.taken ∷ answers) event wanted v a h = taken-Ready event wanted v a h
register_accept-Ready (Answer.failed ∷ answers) event wanted v a h =
    register_accept-Ready answers event wanted (hold event v.made (record v { made = v.made + 1 }))
      (hold-Ready event wanted v a h) h

-- The event that the kernel hands back, and then its session in the set.
pub taken_back-Ready :
    (event : ℕ) (wanted : ℕ → Bool) (v : Service)
    → Ready wanted v
    → Ready (λ e. not (e == event) && wanted e) (record v { posted = erase event v.posted })
taken_back-Ready event wanted v a = record {
  posted = λ e. ground (arith, a.posted e, member-erase e event v.posted);
  fresh = a.fresh;
  held = λ e i. ground (arith, a.held e, member-erase e event v.posted);
  outside = λ e i. ground (arith, a.outside e, member-erase e event v.posted);
  single = λ e d i j same.
      ground (arith, a.single e d, member-erase e event v.posted, member-erase d event v.posted);
  once = a.once;
  counted = a.counted;
}

pub add_session-Ready :
    (event : ℕ) (wanted : ℕ → Bool) (v : Service)
    → Ready wanted v
    → member event v.posted ≡ true
    → Ready
        (λ e. not (e == event) && wanted e)
        (add_session (v.session_of event) (record v { posted = erase event v.posted }))
unfolding add_session
add_session-Ready event wanted v a i =
    let b = taken_back-Ready event wanted v a in
    let s = v.session_of event in
    record {
      posted = b.posted;
      fresh = λ t j. ground (arith, a.fresh t, a.held event i, member-insert t s v.sessions);
      held = b.held;
      outside = λ e j. ground (
        arith,
        b.outside e j,
        a.single e event,
        member-insert (v.session_of e) s v.sessions,
        member-erase e event v.posted,
        i,
      );
      single = b.single;
      once = insert-AreApart s v.sessions (a.outside event i) a.once;
      counted = ground (arith, a.counted, length-insert s v.sessions (a.outside event i));
    }
