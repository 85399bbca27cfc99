-- ===== src/JobQueue/Counts.antt =====
-- What the agents of a job queue add up to: who may execute, what `_jobCount` counts, and which
-- jobs have been taken out and not yet run.
use cplus_server_core_model.JobQueue.{
  Agent, adding, added, taking, running, checking, ℕ, List, ◌≡◌, suc, [], ◌∷◌,
}
use cplus_server_core_model.Prelude.{
  ℕ, List, ◌≡◌, [], ◌++◌, ap, arith, ◌+◌, ◌∙◌, refl, sym, append_assoc, zero,
}

-- 1 for an agent that executes or is bound to see to it that the queue is executed.
abbrev pub token : Agent → ℕ
token (adding zero job) = 1
token (adding (suc n) job) = 0
token (added zero) = 1
token (added (suc n)) = 0
token taking = 1
token (running n left) = 1
token checking = 1

-- What `_jobCount` counts for an agent, besides the jobs in the queue.
abbrev pub load : Agent → ℕ
load (adding n job) = 1
load (added n) = 0
load taking = 0
load (running n left) = n
load checking = 0

abbrev pub waiting : Agent → List ℕ
waiting (adding n job) = []
waiting (added n) = []
waiting taking = []
waiting (running n left) = left
waiting checking = []

abbrev pub total : (Agent → ℕ) → List Agent → ℕ
total w [] = 0
total w (a ∷ as') = w a + total w as'

abbrev pub held : List Agent → List ℕ
held [] = []
held (a ∷ as') = waiting a ++ held as'

pub total-append :
    (w : Agent → ℕ) (xs ys : List Agent) → total w (xs ++ ys) ≡ total w xs + total w ys
total-append w [] ys = omega arith
total-append w (x ∷ xs) ys = omega (arith, total-append w xs ys)

pub held-append : (xs ys : List Agent) → held (xs ++ ys) ≡ held xs ++ held ys
held-append [] ys = refl
held-append (x ∷ xs) ys =
    ap (◌++◌ (waiting x)) (held-append xs ys) ∙ sym (append_assoc (waiting x) (held xs) (held ys))

waiting-quiet : (a : Agent) → token a ≡ 0 → waiting a ≡ []
waiting-quiet (adding n job) h = refl
waiting-quiet (added n) h = refl
waiting-quiet taking h = refl
waiting-quiet (running n left) h = absurd (omega arith)
waiting-quiet checking h = refl

-- Agents with no token hold no jobs.
pub held-quiet : (xs : List Agent) → total token xs ≡ 0 → held xs ≡ []
held-quiet [] h = refl
held-quiet (x ∷ xs) h = rw (waiting-quiet x (omega arith), held-quiet xs (omega arith)) refl
