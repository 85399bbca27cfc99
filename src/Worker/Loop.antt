-- ===== src/Worker/Loop.antt =====
-- A round of the loop of a worker: what the completion, the timer and the global queue give it to do.
use cplus_server_core_model.LockQueue
use cplus_server_core_model.Worker.{
  Setting, Worker, Completion, dispatch, do_global_queue_work, do_worker_job, monitoring_tick,
}
use cplus_server_core_model.Worker.Settled.{beside, Settled, filled, times}
use cplus_server_core_model.Worker.Rounds.{Held}
use cplus_server_core_model.Worker.Executing.{PastFrom, Enough, execute-EndsSettled}
use cplus_server_core_model.Worker.Handling.{handle-EndsSettled, distribute-EndsSettled}
use cplus_server_core_model.Prelude.{
  ◌≢◌, ◌^◌, ◌%◌, ℕ, List, Bool, Option, [], ◌∷◌, zero, suc, none, some, true, false, ok, ◌==◌, ◌≡◌,
  ◌<◌, ◌≤◌, ◌+◌, if◌then◌else◌, length, ltb, arith, refl, ap, ◌⊎◌, inl, ◌∙◌, sym, inr,
}

-- The end of DoGlobalQueueWork: the clock was past the tick, or no queue has a job left.
pub record Rested (s : Setting) (end_tick : ℕ) (w t : Worker) : Type 0 where
  pub settled : Settled t
  pub later : w.reads ≤ t.reads
  pub why :
      ((n : ℕ) × ((w.reads ≤ n) × (n < t.reads) × (end_tick < s.clock n)))
      ⊎ ((q : ℕ) → t.jobs q ≡ [])

EndsRested : Setting → ℕ → Worker → Option Worker → Type 0
EndsRested s end_tick w m = (t : Worker) × ((m ≡ some t) × Rested s end_tick w t)

no_length : (xs : List (Option ℕ)) → length xs ≡ 0 → xs ≡ []
no_length [] h = refl
no_length (x ∷ xs) h = absurd (omega (arith, h))

-- DoGlobalQueueWork with a queue to execute.
popped-Held :
    (q : ℕ) (rest : List (Option ℕ)) (w : Worker)
    → w.global ≡ some q ∷ rest
    → Settled w
    → Held q (record w { global = rest; reads = w.reads + 1 })
popped-Held q rest w e h =
    let at : (d : ℕ) → times d w.global ≡ (if q == d then 1 else 0) + times d rest =
      λ d. ap (times d) e in
    let f = h.fits in
    record {
      jobs_filled = f.jobs_filled;
      counted = f.counted;
      global_filled = sym (ap filled e) ∙ f.global_filled;
      stands = λ d. ground (arith, f.stands d, at d);
      kept = λ d i. ground (arith, f.stands d, at d, i);
    }

nothing_left : (w : Worker) → w.global ≡ [] → Settled w → (q : ℕ) → w.jobs q ≡ []
nothing_left w e h q =
    let none_there : times q w.global ≡ 0 = ap (times q) e in
    no_length (w.jobs q) (ground (arith, h.fits.stands q, h.fits.counted q, none_there))

global-EndsRested :
    (s : Setting) (end_tick late rounds : ℕ) (w : Worker)
    → PastFrom s end_tick late
    → Enough late rounds w
    → Settled w
    → EndsRested s end_tick w (do_global_queue_work s end_tick rounds w)
unfolding do_global_queue_work EndsRested LockQueue.pop
global-EndsRested s end_tick late zero w past enough h = absurd (omega (arith, enough.0))
global-EndsRested s end_tick late (suc rounds) w past enough h =
    clock (ltb end_tick (s.clock w.reads)) refl
      (λ u more i. global-EndsRested s end_tick late rounds u past more i)
  where
    Again : Type 0
    Again =
        (u : Worker)
        → Enough late rounds u
        → Settled u
        → EndsRested s end_tick u (do_global_queue_work s end_tick rounds u)

    goes :
        (q : ℕ) (rest : List (Option ℕ))
        → w.global ≡ some q ∷ rest
        → ltb end_tick (s.clock w.reads) ≡ false
        → Again
        → EndsRested s end_tick w (do_global_queue_work s end_tick (suc rounds) w)
    goes q rest g e again =
        let popped = record w { global = rest; reads = w.reads + 1 } in
        let early : w.reads < late = ground (arith, e, past w.reads) in
        let run =
          execute-EndsSettled s end_tick late rounds q popped past
            (omega (arith, early, enough.1), omega (arith, enough.1)) h.idle
            (popped-Held q rest w g h) in
        let (t, (ends, r)) =
          again run.result (omega (arith, early, enough.1), omega (arith, enough.1, run.later))
            run.settled in
        (
          t,
          (
            ground (arith, e, g, run.ends, ends),
            record {
              settled = r.settled;
              later = omega (arith, run.later, r.later);
              why = elim r.why [
                | inl (n, (l, m, o)) ↦ inl (n, (omega (arith, l, run.later), m, o))
                | inr empty ↦ inr empty
              ];
            },
          ),
        )

    front :
        (g : List (Option ℕ))
        → w.global ≡ g
        → ltb end_tick (s.clock w.reads) ≡ false
        → Again
        → EndsRested s end_tick w (do_global_queue_work s end_tick (suc rounds) w)
    front [] g e again = (
      record w { reads = w.reads + 1 },
      (
        ground (arith, e, g),
        record {
          settled = record { fits = beside h.fits; idle = h.idle; free = h.free };
          later = omega arith;
          why = inr (nothing_left w g h);
        },
      ),
    )
    front (none ∷ rest) g e again = ground (arith, ap filled g, h.fits.global_filled)
    front (some q ∷ rest) g e again = goes q rest g e again

    clock :
        (b : Bool)
        → ltb end_tick (s.clock w.reads) ≡ b
        → Again
        → EndsRested s end_tick w (do_global_queue_work s end_tick (suc rounds) w)
    clock true e again = (
      record w { reads = w.reads + 1 },
      (
        ground (arith, e),
        record {
          settled = record { fits = beside h.fits; idle = h.idle; free = h.free };
          later = omega arith;
          why = inl (w.reads, (omega arith, omega arith, ground (arith, e)));
        },
      ),
    )
    clock false e again = front w.global refl e again

dispatch-Settled :
    (s : Setting) (end_tick late rounds : ℕ)
    → PastFrom s end_tick late
    → (c : Completion) (w : Worker) → c ≢ Completion.failed
    → Enough late rounds w
    → Settled w
    → (taken : Bool) × (u : Worker) × (dispatch s end_tick rounds c w ≡ some (ok (u, taken)))
      × (w.reads ≤ u.reads)
      × Settled u
unfolding dispatch
dispatch-Settled s end_tick late rounds past (Completion.completed ds) w event enough h =
    let e = handle-EndsSettled s end_tick late rounds past ds w enough h in
    (true, e.result, rw (dispatch, e.ends) refl, e.later, e.settled)
dispatch-Settled s end_tick late rounds past (Completion.aborted ds) w event enough h =
    let e = handle-EndsSettled s end_tick late rounds past ds w enough h in
    (true, e.result, rw (dispatch, e.ends) refl, e.later, e.settled)
dispatch-Settled s end_tick late rounds past Completion.timed_out w event enough h =
    (false, w, refl, omega arith, h)
dispatch-Settled s end_tick late rounds past Completion.failed w event enough h =
    absurd (event refl)

-- A round of the loop of a worker, of which GetQueuedCompletionStatus does not fail without an event, comes to its
-- end, whatever the jobs push and reserve: each loop looks at the clock, which is past the end tick from
-- the call `late` on. If before it each queue with jobs stood in the global queue once, and no other, then so
-- afterwards; and either a call of the clock in this round was past the end tick, or no queue has a job left.
pub do_worker_job-settles :
    (s : Setting) (rounds late : ℕ) (c : Completion) (w : Worker)
    → PastFrom s ((s.clock w.reads + monitoring_tick) % 2 ^ 64) late
    → Enough late rounds w
    → Settled w
    → c ≢ Completion.failed
    → (t : Worker) × ((do_worker_job s rounds c w ≡ some (ok t))
        × (Settled t)
        × (((n : ℕ) × ((w.reads < n)
                × (n < t.reads)
                × ((s.clock w.reads + monitoring_tick) % 2 ^ 64 < s.clock n)))
            ⊎ ((q : ℕ) → t.jobs q ≡ [])))
unfolding do_worker_job EndsRested
do_worker_job-settles s rounds late c w past enough h event =
    let end_tick = (s.clock w.reads + monitoring_tick) % 2 ^ 64 in
    let begun = record w { reads = w.reads + 1 } in
    let (taken, w1, e1, l1, h1) =
      dispatch-Settled s end_tick late rounds past c begun event (enough.0, omega (arith, enough.1))
        (record { fits = beside h.fits; idle = h.idle; free = h.free }) in
    let d =
      distribute-EndsSettled s end_tick late rounds past w1 (enough.0, omega (arith, enough.1, l1))
        h1 in
    let (t, (e3, r)) =
      global-EndsRested s end_tick late rounds d.result past
        (enough.0, omega (arith, enough.1, l1, d.later)) d.settled in
    (
      t,
      (
        rw (do_worker_job, e1, d.ends, e3) refl,
        r.settled,
        elim r.why [
          | inl (n, (l, m, o)) ↦ inl (n, (omega (arith, l, l1, d.later), m, o))
          | inr empty ↦ inr empty
        ],
      ),
    )
