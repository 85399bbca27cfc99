-- ===== src/Worker/Handling.antt =====
-- The pushes of a handler and of the timer end, each with Execute where the queue was empty.
use cplus_server_core_model.LockQueue
use cplus_server_core_model.JobTimer
use cplus_server_core_model.JobTimer.{pushed}
use cplus_server_core_model.JobTimer.Due.{distribute-Splits}
use cplus_server_core_model.Worker.{
  Deed, pushes, reserves, Setting, Worker, enqueue, reserve, execute, push, handle,
  distribute_reserved_jobs,
}
use cplus_server_core_model.Worker.Settled.{Fits, beside, Settled, filled-push, length-push}
use cplus_server_core_model.Worker.Executing.{PastFrom, EndsSettled, Enough, execute-EndsSettled}
use cplus_server_core_model.Prelude.{
  ℕ, List, Bool, Option, [], ◌∷◌, none, some, true, false, ◌==◌, ◌≡◌, ◌≤◌, ◌+◌, if◌then◌else◌,
  length, arith, refl, ap, ◌∙◌, map,
}

-- One call behind another.
after : {w u : Worker} {m : Option Worker} → w.reads ≤ u.reads → EndsSettled u m → EndsSettled w m
after h e = record {
  result = e.result;
  ends = e.ends;
  settled = e.settled;
  later = omega (arith, h, e.later);
}

chain :
    {w : Worker} {m : Option Worker} (k : Worker → Option Worker)
    → EndsSettled w m
    → ((u : Worker) → w.reads ≤ u.reads → Settled u → EndsSettled u (k u))
    → EndsSettled w (elim m [ none ↦ none | some u ↦ k u ])
chain k e rest =
    let next = rest e.result e.later e.settled in
    record {
      result = next.result;
      ends = ground (arith, e.ends, next.ends);
      settled = next.settled;
      later = omega (arith, e.later, next.later);
    }

module _ (s : Setting) (end_tick late rounds : ℕ) (past : PastFrom s end_tick late) where
  push-EndsSettled :
      (q job : ℕ) (w : Worker)
      → Enough late rounds w
      → Settled w
      → EndsSettled w (push s end_tick rounds q job w)
  unfolding push enqueue LockQueue.push
  push-EndsSettled q job w enough h = go (w.counts q == 0) refl
    where
      f : Fits (λ q. 0) (λ q. false) w
      f = h.fits

      w' : Worker
      w' = enqueue q job w

      go :
          (b : Bool)
          → (w.counts q == 0) ≡ b
          → EndsSettled w (if b then execute s end_tick rounds q w' else some w')
      go true e = after (omega arith) (
          execute-EndsSettled s end_tick late rounds q w' past enough h.idle (record {
            jobs_filled =
                λ d. ground (arith, f.jobs_filled d, f.jobs_filled q, filled-push job (w.jobs q));
            counted =
                λ d. ground (arith, f.counted d, f.counted q, length-push (some job) (w.jobs q));
            global_filled = f.global_filled;
            stands = λ d. ground (arith, f.stands d, f.stands q, e);
            kept = λ d h. ground (arith, h);
          }))
      go false e = record {
        result = w';
        ends = refl;
        settled = record {
          fits = record {
            jobs_filled =
                λ d. ground (arith, f.jobs_filled d, f.jobs_filled q, filled-push job (w.jobs q));
            counted =
                λ d. ground (arith, f.counted d, f.counted q, length-push (some job) (w.jobs q));
            global_filled = f.global_filled;
            stands = λ d. ground (arith, f.stands d, f.stands q, e);
            kept = λ d h. ground (arith, h);
          };
          idle = h.idle;
          free = h.free;
        };
        later = omega arith;
      }

  pub handle-EndsSettled :
      (ds : List Deed) (w : Worker)
      → Enough late rounds w
      → Settled w
      → EndsSettled w (handle s end_tick rounds ds w)
  unfolding handle reserve JobTimer.reserve
  handle-EndsSettled [] w enough h = record {
    result = w;
    ends = refl;
    settled = h;
    later = omega arith;
  }
  handle-EndsSettled (pushes q job ∷ ds) w enough h =
      chain (handle s end_tick rounds ds) (push-EndsSettled q job w enough h)
        (λ u l h'. handle-EndsSettled ds u (enough.0, omega (arith, enough.1, l)) h')
  handle-EndsSettled (reserves tick_after job_data ∷ ds) w enough h = after (omega arith) (
      handle-EndsSettled ds (reserve s tick_after job_data w) (enough.0, omega (arith, enough.1))
        (record { fits = beside h.fits; idle = h.idle; free = h.free }))

  pub distribute-EndsSettled :
      (w : Worker)
      → Enough late rounds w
      → Settled w
      → EndsSettled w (distribute_reserved_jobs s end_tick rounds w)
  unfolding distribute_reserved_jobs
  distribute-EndsSettled w enough h =
      let now = s.clock w.reads in
      let fuel = length w.timer.items + 1 in
      let (due, left, e, sp) =
        distribute-Splits s.priority_queue s.exists fuel now w.timer.items (omega arith) in
      let timer : JobTimer.JobTimer = record { items = left; distributing = false } in
      let at =
        ap
          (λ b.
            JobTimer.distribute s.priority_queue s.exists fuel now
              (record w.timer { distributing = b }))
          h.idle
        ∙ e in
      rw (distribute_reserved_jobs, at)
        (after (omega arith) (
          handle-EndsSettled (map (λ d. pushes (s.owner d) (s.job d)) (pushed s.exists due))
            (record w { timer = timer; reads = w.reads + 1 }) (enough.0, omega (arith, enough.1))
            (record { fits = beside h.fits; idle = refl; free = h.free })))
