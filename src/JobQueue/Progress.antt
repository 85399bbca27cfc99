-- ===== src/JobQueue/Progress.antt =====
-- A job queue can always be finished: the calls under way, and a worker thread that takes the
-- queue out of GGlobalQueue, run every job, whatever has happened before.
use cplus_server_core_model.JobQueue.{Agent, JobQueue, Step, begins, resumes, moves}
use cplus_server_core_model.LockQueue
use cplus_server_core_model.Prelude.{List, Bool, true, false, ◌≡◌}

abbrev pub is_push : {q r : JobQueue} → Step q r → Bool
is_push (begins job room) = true
is_push (resumes n e) = false
is_push (moves front a back e m) = false

-- Steps in which no new call of Push begins.
pub data Runs (q : JobQueue) : JobQueue → Type 0 where
  stop : Runs q q
  next : {r s : JobQueue} → Runs q r → (step : Step r s) → is_push step ≡ false → Runs q s

-- The first agent comes to its end, and leaves the others as they are.
abbrev Drained : JobQueue → List Agent → Type 0
Drained q back = (r : JobQueue) × (Runs q r) × (r.agents ≡ back)
