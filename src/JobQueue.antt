-- ===== src/JobQueue.antt =====
-- ServerCore/JobQueue.{h,cpp} and the queue's part in ServerCore/ThreadManager.cpp: one job queue,
-- with any number of threads in its methods, a step for each access to what they share. A call of
-- Push or of Execute is an agent; a job that calls Push while it runs is an agent beside the one
-- that runs it. A job is a number, since nothing depends on what it does.
pub mod Counts
pub mod Invariant
pub mod Moves
pub mod Order
pub mod Progress
pub mod Tests
use cplus_server_core_model.LockQueue
use Prim.Native.Nat.{ℕ, suc}
use Prim.Native.String.{[]}
use cplus_server_core_model.Prelude.{
  ℕ, [], List, Option, if◌then◌else◌, some, ◌+◌, ◌==◌, ◌++◌, ◌<◌, ◌∷◌, ◌^◌, ◌≢◌, ◌≡◌, length, suc,
  ◌-◌,
}

-- Where a call of Push or Execute stands, with its locals.
pub data Agent : Type 0 where
  adding : (prev_count job : ℕ) → Agent  -- in Push, behind `_jobCount.fetch_add(1)`
  added : (prev_count : ℕ) → Agent  -- in Push, behind `_jobs.Push(job)`
  taking : Agent  -- in Execute, before `PopAll`
  running : (job_count : ℕ) → (left : List ℕ) → Agent  -- the `for` loop, with the jobs left
  checking : Agent  -- behind a `fetch_sub` that gave another number than `jobCount`

pub record JobQueue : Type 0 where
  pub job_count : ℕ  -- `_jobCount`, an int32
  pub jobs : List (Option ℕ)  -- `_jobs`
  pub scheduled : ℕ  -- how often the queue stands in GGlobalQueue
  pub agents : List Agent
  pub queued : List ℕ  -- the jobs in the order of `_jobs.Push`
  pub executed : List ℕ  -- the jobs in the order of `Execute`

abbrev pub make : JobQueue
make = record { job_count = 0; jobs = []; scheduled = 0; agents = []; queued = []; executed = [] }

-- `fetch_sub(job_count) == job_count`: the call returns, or it goes on to look at the clock.
abbrev pub after_count : ℕ → ℕ → List Agent
after_count old job_count = if old == job_count then [] else checking ∷ []

-- What one agent does next: the queue without the agents, and the agent that is left, if any. In
-- Push, `pushOnly` and LCurrentJobQueue choose whether the call executes or schedules; at the
-- clock, the time chooses whether it goes on or schedules.
pub data Move (q : JobQueue) : Agent → JobQueue → List Agent → Type 0 where
  pushes :
      {prev job : ℕ}
      → Move q
          (adding prev job)
          (record q { jobs = LockQueue.push (some job) q.jobs; queued = q.queued ++ job ∷ [] })
          (added prev ∷ [])
  leaves : {prev : ℕ} → prev ≢ 0 → Move q (added prev) q []
  executes : {prev : ℕ} → prev ≡ 0 → Move q (added prev) q (taking ∷ [])
  schedules :
      {prev : ℕ} → prev ≡ 0 → Move q (added prev) (record q { scheduled = q.scheduled + 1 }) []
  takes :
      Move q taking
        (record q { jobs = (LockQueue.pop_all q.jobs).1 })
        (running (length (LockQueue.pop_all q.jobs).0) (LockQueue.pop_all q.jobs).0 ∷ [])
  runs :
      {n job : ℕ} {left : List ℕ}
      → Move q
          (running n (job ∷ left))
          (record q { executed = q.executed ++ job ∷ [] })
          (running n left ∷ [])
  counts :
      {n : ℕ}
      → Move q (running n []) (record q { job_count = q.job_count - n }) (after_count q.job_count n)
  goes_on : Move q checking q (taking ∷ [])
  yields : Move q checking (record q { scheduled = q.scheduled + 1 }) []

-- A step: a call of Push begins, DoGlobalQueueWork takes the queue out of GGlobalQueue and calls
-- Execute, or an agent moves. The count stays an int32.
pub data Step (q : JobQueue) : JobQueue → Type 0 where
  begins :
      (job : ℕ)
      → q.job_count + 1 < 2 ^ 31
      → Step q
          (record q { job_count = q.job_count + 1; agents = adding q.job_count job ∷ q.agents })
  resumes :
      (n : ℕ)
      → q.scheduled ≡ suc n
      → Step q (record q { scheduled = n; agents = taking ∷ q.agents })
  moves :
      (front : List Agent) (a : Agent) (back : List Agent) {r : JobQueue} {rest : List Agent}
      → q.agents ≡ front ++ a ∷ back
      → Move q a r rest
      → Step q (record r { agents = front ++ (rest ++ back) })

pub data Reach : JobQueue → Type 0 where
  start : Reach make
  later : {q r : JobQueue} → Reach q → Step q r → Reach r
