-- ===== src/Worker/Rounds.antt =====
-- One round of Execute.
use cplus_server_core_model.LockQueue
use cplus_server_core_model.JobTimer
use cplus_server_core_model.Worker.{
  Deed, pushes, reserves, Setting, Worker, update, enqueue, schedule, post, reserve, perform,
  run_jobs, execute_round,
}
use cplus_server_core_model.Worker.Settled.{Fits, pop_all-filled, run_jobs-Fits}
use cplus_server_core_model.Prelude.{
  ℕ, List, Bool, [], ◌∷◌, true, false, ◌==◌, ◌≡◌, ◌≤◌, ◌++◌, if◌then◌else◌, length, arith, refl,
  ◌∙◌,
}

-- Time does not go back, and the timer stays free.
pub record Later (w t : Worker) : Type 0 where
  pub reads : w.reads ≤ t.reads
  pub distributing : t.timer.distributing ≡ w.timer.distributing

perform-Later : (s : Setting) (ds : List Deed) (w : Worker) → Later w (perform s ds w)
unfolding perform post enqueue schedule reserve JobTimer.reserve
perform-Later s [] w = record { reads = omega arith; distributing = refl }
perform-Later s (pushes q job ∷ ds) w =
    let l = perform-Later s ds (post q job w) in
    record { reads = ground (arith, l.reads); distributing = ground (arith, l.distributing) }
perform-Later s (reserves tick_after job_data ∷ ds) w =
    let l = perform-Later s ds (reserve s tick_after job_data w) in
    record { reads = omega (arith, l.reads); distributing = l.distributing }

pub run_jobs-Later :
    (s : Setting) (q : ℕ) (jobs : List ℕ) (w : Worker) → Later w (run_jobs s q jobs w)
unfolding run_jobs
run_jobs-Later s q [] w = record { reads = omega arith; distributing = refl }
run_jobs-Later s q (job ∷ jobs) w =
    let w' = record w { executed = w.executed ++ (q, job) ∷ [] } in
    let l = perform-Later s (s.deeds job) w' in
    let m = run_jobs-Later s q jobs (perform s (s.deeds job) w') in
    record {
      reads = omega (arith, l.reads, m.reads);
      distributing = m.distributing ∙ l.distributing;
    }

-- While the queue is being executed.
abbrev pub Held : ℕ → Worker → Type 0
Held q w = Fits (λ d. 0) (λ d. d == q) w

-- What a round of Execute comes to.
pub record Round (q : ℕ) (w : Worker) (r : Bool × Worker) : Type 0 where
  pub done : r.0 ≡ true → Fits (λ d. 0) (λ d. false) r.1
  pub undone : r.0 ≡ false → Held q r.1
  pub later : Later w r.1

pub execute_round-Round :
    (s : Setting) (q : ℕ) (w : Worker) → Held q w → Round q w (execute_round s q w)
unfolding execute_round
execute_round-Round s q w f =
    let all = pop_all-filled (w.jobs q) (f.jobs_filled q) in
    let popped = LockQueue.pop_all (w.jobs q) in
    let taken = record w { jobs = update q popped.1 w.jobs } in
    let n = length popped.0 in
    let start : Fits (λ d. if d == q then n else 0) (λ d. d == q) taken = record {
      jobs_filled = λ d. ground (arith, f.jobs_filled d, all.1);
      counted = λ d. ground (arith, f.counted d, f.counted q, all.0, all.1);
      global_filled = f.global_filled;
      stands = f.stands;
      kept = f.kept;
    } in
    let g = run_jobs-Fits s q popped.0 taken start in
    let l = run_jobs-Later s q popped.0 taken in
    record {
      done = λ h. record {
        jobs_filled = g.jobs_filled;
        counted = λ d. ground (arith, g.counted d, g.counted q, h);
        global_filled = g.global_filled;
        stands = λ d. ground (arith, g.stands d, g.stands q, h);
        kept = λ d e. ground (arith, e);
      };
      undone = λ h. record {
        jobs_filled = g.jobs_filled;
        counted = λ d. ground (arith, g.counted d, g.counted q, h);
        global_filled = g.global_filled;
        stands = λ d. ground (arith, g.stands d, g.stands q, h, g.counted q);
        kept = λ d e. ground (arith, g.counted d, g.counted q, g.kept d e, h);
      };
      later = record { reads = l.reads; distributing = l.distributing };
    }
