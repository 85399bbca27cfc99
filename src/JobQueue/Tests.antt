-- ===== src/JobQueue/Tests.antt =====
-- One job that waits for a worker thread while another is being pushed; and one job that has run.
use cplus_server_core_model.JobQueue.{
  Agent, JobQueue, Step, Move, Reach, adding, added, taking, running, some, [], ◌≡◌, List, ◌∷◌, ◌<◌,
  ℕ, length,
}
use cplus_server_core_model.JobQueue.Counts.{token}
use cplus_server_core_model.JobQueue.Order.{
  executed_in_order, single_executor, executing, all_executed, not_forgotten,
}
use cplus_server_core_model.LockQueue
use cplus_server_core_model.Prelude.{
  some, arith, [], ◌≡◌, List, ◌∷◌, ◌<◌, false, ◌⊎◌, ℕ, refl, ◌++◌, ap, length,
}

abbrev pushed : JobQueue
pushed = record {
  job_count = 1;
  jobs = some 7 ∷ [];
  scheduled = 0;
  agents = added 0 ∷ [];
  queued = 7 ∷ [];
  executed = [];
}

pushed-Reach : Reach pushed
unfolding LockQueue.push
pushed-Reach =
    Reach.later (Reach.later Reach.start (Step.begins 7 (omega arith)))
      (Step.moves [] (adding 0 7) [] refl Move.pushes)

abbrev contended : JobQueue
contended = record {
  job_count = 2;
  jobs = some 7 ∷ [];
  scheduled = 0;
  agents = taking ∷ adding 1 8 ∷ [];
  queued = 7 ∷ [];
  executed = [];
}

contended-Reach : Reach contended
contended-Reach =
    Reach.later
      (Reach.later
        (Reach.later pushed-Reach (Step.moves [] (added 0) [] refl (Move.schedules refl)))
        (Step.begins 8 (omega arith)))
      (Step.resumes 0 refl)

abbrev done : JobQueue
done = record {
  job_count = 0;
  jobs = [];
  scheduled = 0;
  agents = [];
  queued = 7 ∷ [];
  executed = 7 ∷ [];
}

done-Reach : Reach done
unfolding LockQueue.pop_all
done-Reach =
    Reach.later
      (Reach.later
        (Reach.later
          (Reach.later pushed-Reach (Step.moves [] (added 0) [] refl (Move.executes refl)))
          (Step.moves [] taking [] refl Move.takes))
        (Step.moves [] (running 1 (7 ∷ [])) [] refl Move.runs))
      (Step.moves [] (running 1 []) [] refl Move.counts)

single_executor_example : executing (adding 1 8) ≡ false
single_executor_example = single_executor contended-Reach [] taking [] (adding 1 8) [] refl refl

all_executed_example : (done.executed ≡ done.queued) × (done.job_count ≡ 0) × (done.jobs ≡ [])
all_executed_example = all_executed done-Reach refl refl

not_forgotten_example :
    (0 < contended.scheduled)
    ⊎ ((front : List Agent) × (a : Agent) × (back : List Agent) × (contended.agents
          ≡ front ++ a ∷ back)
        × (token a ≡ 1))
not_forgotten_example = not_forgotten contended-Reach (λ e. absurd (omega (arith, ap length e)))

executed_in_order_example : (left : List ℕ) × (done.executed ++ left ≡ done.queued)
executed_in_order_example = executed_in_order done-Reach
