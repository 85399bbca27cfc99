-- ===== src/Worker/Executing.antt =====
-- Execute ends, since it looks at the clock in each of its rounds.
use cplus_server_core_model.Worker.{Setting, Worker, schedule, execute_round, execute}
use cplus_server_core_model.Worker.Rounds.{Held, Round, execute_round-Round}
use cplus_server_core_model.Worker.Settled.{beside, Settled, filled-push, times-push}
use cplus_server_core_model.Prelude.{
  ℕ, Bool, Option, zero, suc, none, some, true, false, ◌≡◌, ◌<◌, ◌≤◌, ◌+◌, if◌then◌else◌, ltb,
  arith, refl,
}

-- From this call of the clock on, it is past the tick.
abbrev pub PastFrom : Setting → ℕ → ℕ → Type 0
PastFrom s end_tick late = (n : ℕ) → late ≤ n → end_tick < s.clock n

-- The call ends, between the calls of the worker.
pub record EndsSettled (w : Worker) (m : Option Worker) : Type 0 where
  pub result : Worker
  pub ends : m ≡ some result
  pub settled : Settled result
  pub later : w.reads ≤ result.reads

-- The rounds are enough for a loop that looks at the clock in each of them.
abbrev pub Enough : (late rounds : ℕ) → Worker → Type 0
Enough late rounds w = (0 < rounds) × (late < rounds + w.reads)

looked : Worker → Worker
looked w = record w { reads = w.reads + 1 }

pub execute-EndsSettled :
    (s : Setting) (end_tick late rounds q : ℕ) (w : Worker)
    → PastFrom s end_tick late
    → Enough late rounds w
    → w.timer.distributing ≡ false
    → Held q w
    → EndsSettled w (execute s end_tick rounds q w)
unfolding execute schedule looked
execute-EndsSettled s end_tick late zero q w past enough idle f = absurd (omega (arith, enough.0))
execute-EndsSettled s end_tick late (suc rounds) q w past enough idle f =
    let w0 = record w { current = some q } in
    let f0 : Held q w0 = beside f in
    let r = execute_round s q w0 in
    let o = execute_round-Round s q w0 f0 in
    go r o
      (λ ahead free g. execute-EndsSettled s end_tick late rounds q (looked r.1) past ahead free g)
  where
    go :
        (r : Bool × Worker)
        → Round q (record w { current = some q }) r
        → (Enough late rounds (looked r.1)
            → r.1.timer.distributing ≡ false
            → Held q (looked r.1)
            → EndsSettled (looked r.1) (execute s end_tick rounds q (looked r.1)))
        → EndsSettled w (
            if r.0
            then some (record r.1 { current = none })
            else if ltb end_tick (s.clock r.1.reads)
            then some (schedule q (record (looked r.1) { current = none }))
            else execute s end_tick rounds q (looked r.1))
    go (true, w') o again = record {
      result = record w' { current = none };
      ends = refl;
      settled = record {
        fits = beside (o.done refl);
        idle = ground (arith, idle, o.later.distributing);
        free = refl;
      };
      later = o.later.reads;
    }
    go (false, w') o again = clock (ltb end_tick (s.clock w'.reads)) refl
      where
        clock :
            (b : Bool)
            → ltb end_tick (s.clock w'.reads) ≡ b
            → EndsSettled w (
                if b
                then some (schedule q (record (looked w') { current = none }))
                else execute s end_tick rounds q (looked w'))
        clock true h = record {
          result = schedule q (record (looked w') { current = none });
          ends = refl;
          settled = record {
            fits =
                (let g = o.undone refl in
                  record {
                    jobs_filled = g.jobs_filled;
                    counted = g.counted;
                    global_filled = ground (arith, g.global_filled, filled-push q w'.global);
                    stands = λ d.
                        ground (arith, g.stands d, g.stands q, g.kept q, times-push d q w'.global);
                    kept = λ d e. ground (arith, e);
                  });
            idle = ground (arith, idle, o.later.distributing);
            free = refl;
          };
          later = omega (arith, o.later.reads);
        }
        clock false h =
            let early : w'.reads < late = ground (arith, h, past w'.reads) in
            let rest =
              again
                (
                  omega (arith, early, enough.0, enough.1, o.later.reads),
                  omega (arith, early, enough.1, o.later.reads),
                )
                (ground (arith, idle, o.later.distributing)) (beside (o.undone refl)) in
            record {
              result = rest.result;
              ends = rest.ends;
              settled = rest.settled;
              later = omega (arith, o.later.reads, rest.later);
            }
