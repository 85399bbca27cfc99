-- ===== src/Worker/Tests.antt =====
-- A packet that posts a job, which posts another and reserves a third.
use cplus_server_core_model.JobTimer.Tests.{least_first}
use cplus_server_core_model.Worker.{
  pushes, reserves, Setting, Worker, Completion, make, monitoring_tick, do_worker_job,
}
use cplus_server_core_model.Worker.{post, enqueue, schedule, execute}
use cplus_server_core_model.Worker.Settled.{Settled, times, post-Fits}
use cplus_server_core_model.Worker.Clearing.{clear_jobs, Cleared, clear_jobs-restless}
use cplus_server_core_model.Worker.Loop.{do_worker_job-settles}
use cplus_server_core_model.Prelude.{
  ℕ, [], ◌∷◌, some, ok, ◌≡◌, ◌<◌, ◌+◌, ◌*◌, ◌^◌, ◌%◌, ◌==◌, ◌⊎◌, ◌≤◌, arith, if◌then◌else◌, true,
  refl,
}

-- Ten ticks pass between two looks at the clock.
abbrev setting : Setting
setting = record {
  deeds = λ j. if j == 5 then pushes 3 6 ∷ pushes 4 7 ∷ reserves 20 8 ∷ [] else [];
  clock = λ n. 10 * n;
  owner = λ d. 3;
  job = λ d. d;
  exists = λ d. true;
  priority_queue = least_first;
}

make-Settled : Settled make
make-Settled = record {
  fits = record {
    jobs_filled = λ d. refl;
    counted = λ d. refl;
    global_filled = refl;
    stands = λ d. refl;
    kept = λ d h. ground (arith, h);
  };
  idle = refl;
  free = refl;
}

do_worker_job-settles_example :
    (t : Worker) × ((do_worker_job setting 8 (Completion.completed (pushes 3 5 ∷ [])) make
        ≡ some (ok t))
      × (Settled t)
      × (((n : ℕ) × ((0 < n) × (n < t.reads) × ((10 * 0 + monitoring_tick) % 2 ^ 64 < 10 * n)))
          ⊎ ((q : ℕ) → t.jobs q ≡ [])))
do_worker_job-settles_example =
    do_worker_job-settles setting 8 7 (Completion.completed (pushes 3 5 ∷ [])) make
      (λ n h. omega (arith, h)) (omega arith, omega arith) make-Settled (ground arith)

-- A queue that waits with a job.
abbrev waiting : Worker
waiting = post 3 5 make

waiting-Settled : Settled waiting
unfolding post enqueue schedule
waiting-Settled = record { fits = post-Fits 3 5 make make-Settled.fits; idle = refl; free = refl }

clear_jobs-restless_example :
    (t : Worker) × ((execute setting 64 8 3
          (record (clear_jobs 3 waiting) { global = []; reads = 0 })
        ≡ some t)
      × ((n : ℕ) × ((0 ≤ n) × (n < t.reads) × (64 < 10 * n)))
      × (times 3 t.global ≡ 0 + 1)
      × (0 < t.counts 3))
unfolding post enqueue schedule
clear_jobs-restless_example =
    clear_jobs-restless setting 64 7 8 3 (record (clear_jobs 3 waiting) { global = []; reads = 0 })
      (Cleared.takes [] 0 (Cleared.clears waiting-Settled (omega arith))) (λ n h. omega (arith, h))
      (omega arith, omega arith)
