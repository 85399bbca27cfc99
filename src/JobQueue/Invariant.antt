-- ===== src/JobQueue/Invariant.antt =====
-- The invariant of a job queue: one token, and the jobs in the order of their pushes.
use cplus_server_core_model.JobQueue.{Agent, JobQueue, make, ℕ, List, [], suc, some, length}
use cplus_server_core_model.JobQueue.Counts.{
  token, load, waiting, total, held, total-append, held-append, held-quiet,
}
use cplus_server_core_model.Prelude.{
  ℕ, List, [], ◌≡◌, ◌++◌, map, ◌∙◌, arith, ◌+◌, ap, append-nil, some, length, refl, ◌∷◌, zero, ◌⊎◌,
  length-append, sym, ◌<◌, inl, inr,
}

abbrev pub one_if_any : ℕ → ℕ
one_if_any zero = 0
one_if_any (suc n) = 1

-- `items` are the jobs in `_jobs`, none of them null.
pub record Inv (q : JobQueue) : Type 0 where
  pub items : List ℕ
  pub filled : q.jobs ≡ map some items
  pub counted : q.job_count ≡ length items + total load q.agents
  pub single : total token q.agents + q.scheduled ≡ one_if_any q.job_count
  pub in_order : q.executed ++ (held q.agents ++ items) ≡ q.queued

pub make-Inv : Inv make
make-Inv = record { items = []; filled = refl; counted = refl; single = refl; in_order = refl }

-- One move of the agent `a` among `front` and `back`.
module _ (front : List Agent) (back : List Agent) where
  abbrev among : List Agent → List Agent
  among xs = front ++ (xs ++ back)

  pub total-among :
      (w : Agent → ℕ) (xs : List Agent)
      → total w (among xs) ≡ total w front + (total w xs + total w back)
  total-among w xs = omega (arith, total-append w front (xs ++ back), total-append w xs back)

  held-among : (xs : List Agent) → held (among xs) ≡ held front ++ (held xs ++ held back)
  held-among xs = held-append front (xs ++ back) ∙ ap (◌++◌ (held front)) (held-append xs back)

  -- An agent with a token is the only one that holds jobs.
  held-alone : (xs : List Agent) → total token (front ++ back) ≡ 0 → held (among xs) ≡ held xs
  held-alone xs h =
      let sum = total-append token front back in
      rw (held-among xs, held-quiet front (omega arith), held-quiet back (omega arith))
        (append-nil (held xs))

-- The moves, with the other agents' sums in the hypotheses. `w` sums front and back.
module _ {q : JobQueue} (front : List Agent) (a : Agent) (back : List Agent)
    (here : q.agents ≡ front ++ a ∷ back) (v : Inv q) where
  open v use {items}

  pub loads : total load q.agents ≡ total load front + (load a + total load back)
  loads = ap (total load) here ∙ total-append load front (a ∷ back)

  pub tokens : total token q.agents ≡ total token front + (token a + total token back)
  tokens = ap (total token) here ∙ total-append token front (a ∷ back)

  helds : held q.agents ≡ held front ++ (waiting a ++ held back)
  helds = ap held here ∙ held-append front (a ∷ back)

pub one_if_any-cases : (n : ℕ) → ((n ≡ 0) × (one_if_any n ≡ 0)) ⊎ ((0 < n) × (one_if_any n ≡ 1))
one_if_any-cases zero = inl (refl, refl)
one_if_any-cases (suc n) = inr (omega arith, refl)

pub length-append_one : (xs : List ℕ) (x : ℕ) → length (xs ++ x ∷ []) ≡ length xs + 1
length-append_one xs x = length-append xs (x ∷ [])

pub map-append_one : (xs : List ℕ) (x : ℕ) → map some xs ++ some x ∷ [] ≡ map some (xs ++ x ∷ [])
map-append_one [] x = refl
map-append_one (y ∷ xs) x = ap (◌∷◌ (some y)) (map-append_one xs x)

-- Where a move changes no job, the jobs stay in order.
pub same_held :
    (front : List Agent) (a : Agent) (back rest : List Agent)
    → held rest ≡ waiting a
    → held (front ++ (rest ++ back)) ≡ held (front ++ a ∷ back)
same_held front a back rest h =
    held-among front back rest ∙ (rw h (sym (held-append front (a ∷ back))))

-- A move of the agents, and of GGlobalQueue, only.
pub Inv-agents :
    {q : JobQueue} (front : List Agent) (a : Agent) (back rest : List Agent) (scheduled : ℕ)
    → q.agents ≡ front ++ a ∷ back
    → Inv q
    → held rest ≡ waiting a
    → total load rest ≡ load a
    → total token rest + scheduled ≡ token a + q.scheduled
    → Inv (record q { scheduled = scheduled; agents = front ++ (rest ++ back) })
Inv-agents front a back rest scheduled e v h l t =
    let same = same_held front a back rest h ∙ sym (ap held e) in
    record {
      items = v.items;
      filled = v.filled;
      counted = omega (arith, v.counted, loads front a back e v, total-among front back load rest);
      single = omega (arith, v.single, tokens front a back e v, total-among front back token rest);
      in_order = rw same v.in_order;
    }

-- Beside an agent with a token no other holds jobs.
pub held_by :
    {q : JobQueue} (front : List Agent) (a : Agent) (back : List Agent)
    → q.agents ≡ front ++ a ∷ back
    → Inv q
    → token a ≡ 1
    → (rest : List Agent) → held (front ++ (rest ++ back)) ≡ held rest
held_by {q} front a back e v one rest = held-alone front back rest (
    ground (
      arith,
      v.single,
      tokens front a back e v,
      total-append token front back,
      one_if_any-cases q.job_count,
    ))

-- With no other holder the jobs taken out, and behind them those in the queue, are all to come.
pub to_come :
    {q : JobQueue} (front : List Agent) (a : Agent) (back : List Agent)
    → q.agents ≡ front ++ a ∷ back
    → (v : Inv q) → token a ≡ 1
    → q.executed ++ (waiting a ++ v.items) ≡ q.queued
to_come front a back e v one =
    let alone = ap held e ∙ held_by front a back e v one (a ∷ []) ∙ append-nil (waiting a) in
    rw alone at v.in_order
