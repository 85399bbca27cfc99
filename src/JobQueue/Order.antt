-- ===== src/JobQueue/Order.antt =====
-- A job queue is executed by one agent at a time, in the order of the pushes, and forgets no job.
use cplus_server_core_model.JobQueue.{
  Agent, adding, added, taking, running, checking, JobQueue, Step, begins, resumes, moves, Reach, ℕ,
  ◌≡◌, List, ◌≢◌, [], suc, length, some,
}
use cplus_server_core_model.JobQueue.Counts.{token, total, held, total-append}
use cplus_server_core_model.JobQueue.Moves.{Move-Inv}
use cplus_server_core_model.JobQueue.Invariant.{Inv, make-Inv, one_if_any, one_if_any-cases}
use cplus_server_core_model.Prelude.{
  ℕ, arith, Bool, ◌≡◌, List, ◌≢◌, false, true, ◌+◌, ◌++◌, [], ◌∷◌, ◌<◌, refl, Bool-cases, ◌⊎◌, zero,
  inr, inl, ap, dec_lt, append-nil, ◌∙◌, length, map, some,
}
use Prim.Native.Nat.{◌≤◌}

token-adding : (n j : ℕ) → token (adding n j) + one_if_any n ≡ 1
token-adding zero j = refl
token-adding (suc n) j = refl

pub Step-Inv : {q r : JobQueue} → Step q r → Inv q → Inv r
Step-Inv {q} (begins j room) v = record {
  items = v.items;
  filled = v.filled;
  counted = omega (arith, v.counted);
  single = ground (arith, v.single, token-adding q.job_count j, one_if_any-cases (q.job_count + 1));
  in_order = v.in_order;
}
Step-Inv {q} (resumes n e) v = record {
  items = v.items;
  filled = v.filled;
  counted = omega (arith, v.counted);
  single = omega (arith, v.single);
  in_order = v.in_order;
}
Step-Inv (moves front a back e m) v = Move-Inv front back m e v

pub Reach-Inv : {q : JobQueue} → Reach q → Inv q
Reach-Inv Reach.start = make-Inv
Reach-Inv (Reach.later r st) = Step-Inv st (Reach-Inv r)

-- An agent between the first line of Execute and its return.
abbrev pub executing : Agent → Bool
executing (adding n j) = false
executing (added n) = false
executing taking = true
executing (running n left) = true
executing checking = true

token-executing : (a : Agent) → executing a ≡ true → token a ≡ 1
token-executing (adding n j) h = cc
token-executing (added n) h = cc
token-executing taking h = refl
token-executing (running n left) h = refl
token-executing checking h = refl

one_if_any-le : (n : ℕ) → one_if_any n ≤ 1
one_if_any-le zero = omega arith
one_if_any-le (suc n) = omega arith

nil_of_length : (xs : List ℕ) → length xs ≡ 0 → xs ≡ []
nil_of_length [] h = refl
nil_of_length (x ∷ xs) h = absurd (omega arith)

pos_of_ne : (xs : List ℕ) → xs ≢ [] → 0 < length xs
pos_of_ne [] h = absurd (h refl)
pos_of_ne (x ∷ xs) h = omega arith

token-le : (a : Agent) → token a ≤ 1
token-le (adding zero j) = omega arith
token-le (adding (suc n) j) = omega arith
token-le (added zero) = omega arith
token-le (added (suc n)) = omega arith
token-le taking = omega arith
token-le (running n left) = omega arith
token-le checking = omega arith

token_holder :
    (as' : List Agent)
    → 0 < total token as'
    → (front : List Agent) × (a : Agent) × (back : List Agent) × (as' ≡ front ++ a ∷ back)
      × (token a ≡ 1)
token_holder [] h = absurd (omega arith)
token_holder (x ∷ xs) h = elim (dec_lt 0 (token x)) [
  | yes p ↦ ([], x, xs, refl, omega (arith, token-le x))
  | no p ↦
      let (front, a, back, e, t) = token_holder xs (omega arith) in
      (x ∷ front, a, back, ap (◌∷◌ x) e, t)
]

-- However the threads interleave, no two agents execute one job queue at the same time.
pub single_executor :
    {q : JobQueue}
    → Reach q
    → (front : List Agent) (a : Agent) (between : List Agent) (b : Agent) (back : List Agent)
    → q.agents ≡ front ++ a ∷ (between ++ b ∷ back)
    → executing a ≡ true
    → executing b ≡ false
single_executor {q} r front a between b back e ea = elim (Bool-cases (executing b)) [
  | inr h ↦ h
  | inl eb ↦
      let v = Reach-Inv r in
      absurd (
        omega (
          arith,
          v.single,
          ap (total token) e,
          total-append token front (a ∷ (between ++ b ∷ back)),
          total-append token between (b ∷ back),
          token-executing a ea,
          token-executing b eb,
          one_if_any-le q.job_count,
        ))
]

-- The jobs run in the order in which Push put them into the queue, each once: those run so far
-- are the first of them.
pub executed_in_order : {q : JobQueue} → Reach q → (left : List ℕ) × (q.executed ++ left ≡ q.queued)
executed_in_order {q} r = let v = Reach-Inv r in (held q.agents ++ v.items, v.in_order)

-- When no thread is in Push or Execute and the queue is not scheduled, every job has run, in
-- order, and the count is 0.
pub all_executed :
    {q : JobQueue}
    → Reach q
    → q.agents ≡ []
    → q.scheduled ≡ 0
    → (q.executed ≡ q.queued) × (q.job_count ≡ 0) × (q.jobs ≡ [])
all_executed {q} r none_left idle =
    let v = Reach-Inv r in
    let zero_count : q.job_count ≡ 0 =
      omega (arith, v.single, ap (total token) none_left, one_if_any-cases q.job_count) in
    let no_items = nil_of_length v.items (omega (arith, v.counted)) in
    (
      rw (ap held none_left, no_items, append-nil q.executed) at v.in_order,
      zero_count,
      v.filled ∙ ap (map some) no_items,
    )

-- As long as a job stands in the queue, it is not forgotten: the queue is scheduled, or a thread
-- is in Execute, or is in Push and will execute or schedule the queue.
pub not_forgotten :
    {q : JobQueue}
    → Reach q
    → q.jobs ≢ []
    → (0 < q.scheduled)
      ⊎ ((front : List Agent) × (a : Agent) × (back : List Agent) × (q.agents ≡ front ++ a ∷ back)
          × (token a ≡ 1))
not_forgotten {q} r some_left =
    let v = Reach-Inv r in
    let counted : 0 < q.job_count =
      omega (arith, v.counted, pos_of_ne v.items (λ e. some_left (v.filled ∙ ap (map some) e))) in
    elim (dec_lt 0 q.scheduled) [
      | yes h ↦ inl h
      | no h ↦ inr (token_holder q.agents (omega (arith, v.single, one_if_any-cases q.job_count)))
    ]
