-- ===== src/JobQueue/Moves.antt =====
-- Each move of an agent keeps the invariant.
use cplus_server_core_model.JobQueue.Invariant.{
  Inv, one_if_any-cases, Inv-agents, total-among, loads, tokens, same_held, held_by, to_come,
  length-append_one, map-append_one,
}
use cplus_server_core_model.JobQueue.{
  Agent, adding, added, taking, running, checking, JobQueue, after_count, Move, pushes, leaves,
  executes, schedules, takes, runs, counts, goes_on, yields, ℕ, List, [], some, length,
}
use cplus_server_core_model.JobQueue.Counts.{token, load, held}
use cplus_server_core_model.LockQueue.{push, pop_all-filled}
use cplus_server_core_model.LockQueue
use cplus_server_core_model.Prelude.{
  ℕ, List, [], ◌≡◌, ◌++◌, ◌∙◌, arith, ◌+◌, ap, append-nil, some, length, refl, ◌∷◌, sym,
  append_assoc,
}
use Prim.Native.Nat.{◌-◌}

takes-Inv :
    {q : JobQueue} (front back : List Agent)
    → q.agents ≡ front ++ taking ∷ back
    → Inv q
    → Inv (record q {
      jobs = (LockQueue.pop_all q.jobs).1;
      agents =
          front
          ++ (running (length (LockQueue.pop_all q.jobs).0) (LockQueue.pop_all q.jobs).0 ∷ []
              ++ back);
    })
takes-Inv {q} front back e v =
    let all = ap LockQueue.pop_all v.filled ∙ pop_all-filled v.items in
    let a = running (length v.items) v.items in
    let mine = held_by front taking back e v refl (a ∷ []) ∙ append-nil v.items in
    rw all (record {
      items = [];
      filled = refl;
      counted =
          omega
            (arith, v.counted, loads front taking back e v, total-among front back load (a ∷ []));
      single =
          omega
            (arith, v.single, tokens front taking back e v, total-among front back token (a ∷ []));
      in_order = rw (mine, append-nil v.items) (to_come front taking back e v refl);
    })

runs-Inv :
    {q : JobQueue} (n job : ℕ) (left : List ℕ) (front back : List Agent)
    → q.agents ≡ front ++ running n (job ∷ left) ∷ back
    → Inv q
    → Inv (record q {
      executed = q.executed ++ job ∷ [];
      agents = front ++ (running n left ∷ [] ++ back);
    })
runs-Inv {q} n job left front back e v =
    let a = running n (job ∷ left) in
    let rest = running n left ∷ [] in
    let mine = held_by front a back e v refl rest ∙ append-nil left in
    record {
      items = v.items;
      filled = v.filled;
      counted = omega (arith, v.counted, loads front a back e v, total-among front back load rest);
      single = omega (arith, v.single, tokens front a back e v, total-among front back token rest);
      in_order =
          rw (mine, append_assoc q.executed (job ∷ []) (left ++ v.items))
            (to_come front a back e v refl);
    }

held-after_count : (old n : ℕ) → held (after_count old n) ≡ []
held-after_count old n = ground arith

counts-Inv :
    {q : JobQueue} (n : ℕ) (front back : List Agent)
    → q.agents ≡ front ++ running n [] ∷ back
    → Inv q
    → Inv (record q {
      job_count = q.job_count - n;
      agents = front ++ (after_count q.job_count n ++ back);
    })
counts-Inv {q} n front back e v =
    let a = running n [] in
    let rest = after_count q.job_count n in
    let mine = held_by front a back e v refl rest ∙ held-after_count q.job_count n in
    record {
      items = v.items;
      filled = v.filled;
      counted = ground (arith, v.counted, loads front a back e v, total-among front back load rest);
      single = ground (
        arith,
        v.single,
        v.counted,
        loads front a back e v,
        tokens front a back e v,
        total-among front back token rest,
        one_if_any-cases q.job_count,
        one_if_any-cases (q.job_count - n),
      );
      in_order = rw mine (to_come front a back e v refl);
    }

pushes-Inv :
    {q : JobQueue} (p j : ℕ) (front back : List Agent)
    → q.agents ≡ front ++ adding p j ∷ back
    → Inv q
    → Inv (record q {
      jobs = push (some j) q.jobs;
      queued = q.queued ++ j ∷ [];
      agents = front ++ (added p ∷ [] ++ back);
    })
unfolding push
pushes-Inv {q} p j front back e v =
    let a = adding p j in
    let rest = added p ∷ [] in
    let same = same_held front a back rest refl ∙ sym (ap held e) in
    record {
      items = v.items ++ j ∷ [];
      filled = rw v.filled (map-append_one v.items j);
      counted = omega (
        arith,
        v.counted,
        loads front a back e v,
        total-among front back load rest,
        length-append_one v.items j,
      );
      single = ground (arith, v.single, tokens front a back e v, total-among front back token rest);
      in_order =
          rw
            (
              same,
              ← append_assoc (held q.agents) v.items (j ∷ []),
              ← append_assoc q.executed (held q.agents ++ v.items) (j ∷ []),
              v.in_order,
            )
            refl;
    }

pub Move-Inv :
    {q r : JobQueue} {a : Agent} {rest : List Agent} (front back : List Agent)
    → Move q a r rest
    → q.agents ≡ front ++ a ∷ back
    → Inv q
    → Inv (record r { agents = front ++ (rest ++ back) })
Move-Inv front back (pushes {prev = p} {job = j}) e v = pushes-Inv p j front back e v
Move-Inv {q} front back (leaves {prev = p} ne) e v =
    Inv-agents front (added p) back [] q.scheduled e v refl refl (ground arith)
Move-Inv {q} front back (executes {prev = p} z) e v =
    Inv-agents front (added p) back (taking ∷ []) q.scheduled e v refl refl (ground arith)
Move-Inv {q} front back (schedules {prev = p} z) e v =
    Inv-agents front (added p) back [] (q.scheduled + 1) e v refl refl (ground arith)
Move-Inv front back takes e v = takes-Inv front back e v
Move-Inv front back (runs {n = n} {job = j} {left = l}) e v = runs-Inv n j l front back e v
Move-Inv front back (counts {n = n}) e v = counts-Inv n front back e v
Move-Inv {q} front back goes_on e v =
    Inv-agents front checking back (taking ∷ []) q.scheduled e v refl refl refl
Move-Inv {q} front back yields e v =
    Inv-agents front checking back [] (q.scheduled + 1) e v refl refl (omega arith)
