-- ===== src/Worker.antt =====
-- GameServer/GameServer.cpp, ServerCore/ThreadManager.{h,cpp} and ServerCore/IocpCore.{h,cpp}: the rounds of a
-- worker, with the job queues of ServerCore/JobQueue and ServerCore/GlobalQueue and the timer of ServerCore/JobTimer.
-- No other thread runs in between; JobQueue has the threads of one queue. A job queue is a number, as a job is.
pub mod Settled
pub mod Rounds
pub mod Executing
pub mod Handling
pub mod Loop
pub mod MainThread
pub mod Clearing
pub mod Tests
use cplus_server_core_model.LockQueue
use cplus_server_core_model.JobTimer
use cplus_server_core_model.JobTimer.{JobTimer, PriorityQueue}
use cplus_server_core_model.Prelude.{
  ℕ, List, Bool, Option, Outcome, [], ◌∷◌, zero, suc, none, some, true, false, ok, stray, ltb, ◌==◌,
  ◌+◌, ◌-◌, ◌++◌, ◌^◌, ◌%◌, ◌&&◌, not, if◌then◌else◌, length, map, crash,
}

-- What a job, or the handler of a completion, does: it calls DoAsync, or DoTimer, of a job queue.
pub data Deed : Type 0 where
  pushes : (queue job : ℕ) → Deed
  reserves : (tick_after job_data : ℕ) → Deed

-- The jobs of the program, what `GetTickCount64` gives at each call, the queue and the job of a JobData, whether the
-- queue still exists, and the priority queue of the timer.
pub record Setting : Type 0 where
  pub deeds : ℕ → List Deed
  pub clock : ℕ → ℕ
  pub owner : ℕ → ℕ
  pub job : ℕ → ℕ
  pub exists : ℕ → Bool
  pub priority_queue : PriorityQueue

-- `_jobCount` and `_jobs` of each queue, GGlobalQueue, GJobTimer, LCurrentJobQueue, how often the clock was read, and
-- what was executed. A count is an int32, and less than 2^31 jobs fit.
pub record Worker : Type 0 where
  pub counts : ℕ → ℕ
  pub jobs : ℕ → List (Option ℕ)
  pub global : List (Option ℕ)
  pub timer : JobTimer
  pub current : Option ℕ
  pub reads : ℕ
  pub executed : List (ℕ × ℕ)

abbrev pub make : Worker
make = record {
  counts = λ q. 0;
  jobs = λ q. [];
  global = [];
  timer = JobTimer.make;
  current = none;
  reads = 0;
  executed = [];
}

abbrev pub update {ℓ} : {A : Type ℓ} → ℕ → A → (ℕ → A) → ℕ → A
update q a f d = if d == q then a else f d

-- The lines of Push before the test of `prevCount`.
unfoldable pub enqueue : ℕ → ℕ → Worker → Worker
enqueue q job w = record w {
  counts = update q (w.counts q + 1) w.counts;
  jobs = update q (LockQueue.push (some job) (w.jobs q)) w.jobs;
}

-- `GGlobalQueue->Push(shared_from_this())`.
unfoldable pub schedule : ℕ → Worker → Worker
schedule q w = record w { global = LockQueue.push (some q) w.global }

-- Push where LCurrentJobQueue is set.
unfoldable pub post : ℕ → ℕ → Worker → Worker
unfolding enqueue schedule
post q job w = let w' = enqueue q job w in if w.counts q == 0 then schedule q w' else w'

-- DoTimer.
unfoldable pub reserve : Setting → ℕ → ℕ → Worker → Worker
reserve s tick_after job_data w = record w {
  timer = JobTimer.reserve (s.clock w.reads) tick_after job_data w.timer;
  reads = w.reads + 1;
}

-- What a job does, while Execute runs it.
unfoldable pub perform : Setting → List Deed → Worker → Worker
unfolding post reserve
perform s [] w = w
perform s (pushes q job ∷ ds) w = perform s ds (post q job w)
perform s (reserves tick_after job_data ∷ ds) w = perform s ds (reserve s tick_after job_data w)

-- The `for` of Execute.
unfoldable pub run_jobs : Setting → ℕ → List ℕ → Worker → Worker
unfolding perform
run_jobs s q [] w = w
run_jobs s q (job ∷ jobs) w =
    run_jobs s q jobs
      (perform s (s.deeds job) (record w { executed = w.executed ++ (q, job) ∷ [] }))

-- One round of Execute, behind which the queue has no job left, or it goes on to look at the clock.
unfoldable pub execute_round : Setting → ℕ → Worker → Bool × Worker
unfolding run_jobs
execute_round s q w =
    let (jobs, rest) = LockQueue.pop_all (w.jobs q) in
    let w' = run_jobs s q jobs (record w { jobs = update q rest w.jobs }) in
    let count = w'.counts q in
    (count == length jobs, record w' { counts = update q (count - length jobs) w'.counts })

-- Execute, up to the tick in LEndTickCount. `none`: the rounds ran out.
unfoldable pub execute : Setting → ℕ → ℕ → ℕ → Worker → Option Worker
unfolding execute_round schedule
execute s end_tick zero q w = none
execute s end_tick (suc rounds) q w =
    let (done, w') = execute_round s q (record w { current = some q }) in
    let read = record w' { reads = w'.reads + 1 } in
    let again = execute s end_tick rounds q read in
    if done
    then some (record w' { current = none })
    else if ltb end_tick (s.clock w'.reads)
    then some (schedule q (record read { current = none }))
    else again

-- Push where LCurrentJobQueue is null.
unfoldable pub push : Setting → ℕ → ℕ → ℕ → ℕ → Worker → Option Worker
unfolding enqueue execute
push s end_tick rounds q job w =
    let w' = enqueue q job w in if w.counts q == 0 then execute s end_tick rounds q w' else some w'

-- What a handler of a completion does.
unfoldable pub handle : Setting → ℕ → ℕ → List Deed → Worker → Option Worker
unfolding push reserve
handle s end_tick rounds [] w = some w
handle s end_tick rounds (pushes q job ∷ ds) w = elim (push s end_tick rounds q job w) [
  | none ↦ none
  | some w' ↦ handle s end_tick rounds ds w'
]
handle s end_tick rounds (reserves tick_after job_data ∷ ds) w =
    handle s end_tick rounds ds (reserve s tick_after job_data w)

-- How GetQueuedCompletionStatus ends, with what the owner of the event then does: a completion, one that
-- failed, the time-out, or another error, which has no event.
pub data Completion : Type 0 where
  completed aborted : List Deed → Completion
  timed_out failed : Completion

-- `IocpCore::Dispatch`.
unfoldable pub dispatch : Setting → ℕ → ℕ → Completion → Worker → Option (Outcome (Worker × Bool))
unfolding handle
dispatch s end_tick rounds (completed ds) w = elim (handle s end_tick rounds ds w) [
  | none ↦ none
  | some w' ↦ some (ok (w', true))
]
dispatch s end_tick rounds (aborted ds) w = elim (handle s end_tick rounds ds w) [
  | none ↦ none
  | some w' ↦ some (ok (w', true))
]
dispatch s end_tick rounds timed_out w = some (ok (w, false))
dispatch s end_tick rounds failed w = some stray

-- `ThreadManager::DistributeReservedJobs`. The rounds of the loop of Distribute are one more than its items.
unfoldable pub distribute_reserved_jobs : Setting → ℕ → ℕ → Worker → Option Worker
unfolding JobTimer.distribute handle
distribute_reserved_jobs s end_tick rounds w =
    let now = s.clock w.reads in
    elim (JobTimer.distribute s.priority_queue s.exists (length w.timer.items + 1) now w.timer) [
      | none ↦ none
      | some (timer, (due, returned)) ↦
          handle s end_tick rounds (map (λ d. pushes (s.owner d) (s.job d)) due)
            (record w { timer = timer; reads = w.reads + 1 })
    ]

-- `ThreadManager::DoGlobalQueueWork`.
unfoldable pub do_global_queue_work : Setting → ℕ → ℕ → Worker → Option Worker
unfolding execute
do_global_queue_work s end_tick zero w = none
do_global_queue_work s end_tick (suc rounds) w =
    let read = record w { reads = w.reads + 1 } in
    let (front, rest) = LockQueue.pop w.global in
    let popped = record read { global = rest } in
    let again = λ (w' : Worker). do_global_queue_work s end_tick rounds w' in
    if ltb end_tick (s.clock w.reads) then some read else elim front [
      | none ↦ some popped
      | some q ↦ elim (execute s end_tick rounds q popped) [ none ↦ none | some w' ↦ again w' ]
    ]

-- GLOBAL_QUEUE_MONITORING_TICK.
abbrev pub monitoring_tick : ℕ
monitoring_tick = 64

-- One round of the loop in DoWorkerJob.
unfoldable pub do_worker_job : Setting → ℕ → Completion → Worker → Option (Outcome Worker)
unfolding dispatch distribute_reserved_jobs do_global_queue_work
do_worker_job s rounds c w =
    let end_tick = (s.clock w.reads + monitoring_tick) % 2 ^ 64 in
    elim (dispatch s end_tick rounds c (record w { reads = w.reads + 1 })) [
      | none ↦ none
      | some (crash e) ↦ some (crash e)
      | some stray ↦ some stray
      | some (ok (w1, taken)) ↦ elim (distribute_reserved_jobs s end_tick rounds w1) [
        | none ↦ none
        | some w2 ↦ elim (do_global_queue_work s end_tick rounds w2) [
          | none ↦ none
          | some w3 ↦ some (ok w3)
        ]
      ]
    ]
