-- ===== src/Worker/Clearing.antt =====
-- ClearJobs of ServerCore/JobQueue.h, which empties the queue and leaves its count.
use cplus_server_core_model.LockQueue
use cplus_server_core_model.Worker.{
  Deed, pushes, reserves, Setting, Worker, update, enqueue, schedule, post, reserve, perform,
  run_jobs, execute_round, execute,
}
use cplus_server_core_model.Worker.Settled.{
  Settled, filled, times, filled-push, times-push, length-push, pop_all-filled,
}
use cplus_server_core_model.Worker.Rounds.{run_jobs-Later}
use cplus_server_core_model.Worker.Executing.{PastFrom, Enough}
use cplus_server_core_model.Prelude.{
  ℕ, List, Bool, Option, [], ◌∷◌, zero, suc, none, some, true, false, ◌≡◌, ◌<◌, ◌≤◌, ◌+◌, ◌++◌, ◌⊎◌,
  inl, inr, length, ltb, arith, refl, if◌then◌else◌, ◌∙◌, subst,
}

unfoldable pub clear_jobs : ℕ → Worker → Worker
clear_jobs q w = record w { jobs = update q (LockQueue.clear (w.jobs q)) w.jobs }

-- The queue counts so many jobs more than it has.
record Lags (q more : ℕ) (w : Worker) : Type 0 where
  jobs_filled : filled (w.jobs q) ≡ true
  counted : w.counts q ≡ length (w.jobs q) + more

-- What jobs push changes neither that, nor how often the queue stands in the global queue.
record Leaves (q more : ℕ) (w t : Worker) : Type 0 where
  lags : Lags q more t
  global : times q t.global ≡ times q w.global

post-Leaves :
    (q more d job : ℕ) (w : Worker) → 0 < more → Lags q more w → Leaves q more w (post d job w)
unfolding post enqueue schedule
post-Leaves q more d job w pos l = record {
  lags = record {
    jobs_filled = ground (arith, l.jobs_filled, filled-push job (w.jobs d));
    counted = ground (arith, l.counted, length-push (some job) (w.jobs d));
  };
  global = ground (arith, l.counted, times-push q d w.global);
}

perform-Leaves :
    (s : Setting) (q more : ℕ) (ds : List Deed) (w : Worker)
    → 0 < more
    → Lags q more w
    → Leaves q more w (perform s ds w)
unfolding perform reserve
perform-Leaves s q more [] w pos l = record { lags = l; global = refl }
perform-Leaves s q more (pushes d job ∷ ds) w pos l =
    let first = post-Leaves q more d job w pos l in
    let rest = perform-Leaves s q more ds (post d job w) pos first.lags in
    record { lags = rest.lags; global = rest.global ∙ first.global }
perform-Leaves s q more (reserves tick_after job_data ∷ ds) w pos l =
    let rest =
      perform-Leaves s q more ds (reserve s tick_after job_data w) pos
        (record { jobs_filled = l.jobs_filled; counted = l.counted }) in
    record { lags = rest.lags; global = rest.global }

run_jobs-Leaves :
    (s : Setting) (q more d : ℕ) (jobs : List ℕ) (w : Worker)
    → 0 < more
    → Lags q more w
    → Leaves q more w (run_jobs s d jobs w)
unfolding run_jobs
run_jobs-Leaves s q more d [] w pos l = record { lags = l; global = refl }
run_jobs-Leaves s q more d (job ∷ jobs) w pos l =
    let w' = record w { executed = w.executed ++ (d, job) ∷ [] } in
    let first =
      perform-Leaves s q more (s.deeds job) w' pos
        (record { jobs_filled = l.jobs_filled; counted = l.counted }) in
    let rest = run_jobs-Leaves s q more d jobs (perform s (s.deeds job) w') pos first.lags in
    record { lags = rest.lags; global = rest.global ∙ first.global }

-- A round of Execute, behind which the loop goes on.
record Undone (q more : ℕ) (w : Worker) (r : Bool × Worker) : Type 0 where
  undone : r.0 ≡ false
  leaves : Leaves q more w r.1
  later : w.reads ≤ r.1.reads

execute_round-Undone :
    (s : Setting) (q more : ℕ) (w : Worker)
    → 0 < more
    → Lags q more w
    → Undone q more w (execute_round s q w)
unfolding execute_round
execute_round-Undone s q more w pos l =
    let all = pop_all-filled (w.jobs q) l.jobs_filled in
    let popped = LockQueue.pop_all (w.jobs q) in
    let taken = record w { jobs = update q popped.1 w.jobs } in
    let n = length popped.0 in
    let start : Lags q (n + more) taken = record {
      jobs_filled = ground (arith, all.1);
      counted = ground (arith, l.counted, all.0, all.1);
    } in
    let g = run_jobs-Leaves s q (n + more) q popped.0 taken (omega (arith, pos)) start in
    let late = run_jobs-Later s q popped.0 taken in
    record {
      undone = ground (arith, g.lags.counted, pos);
      leaves = record {
        lags = record {
          jobs_filled = g.lags.jobs_filled;
          counted = ground (arith, g.lags.counted);
        };
        global = g.global;
      };
      later = late.reads;
    }

-- Execute of such a queue came to its end because the time was over, and scheduled the queue.
record Spun (end_tick : ℕ) (s : Setting) (q more : ℕ) (w t : Worker) : Type 0 where
  lags : Lags q more t
  global : times q t.global ≡ times q w.global + 1
  why : (n : ℕ) × ((w.reads ≤ n) × (n < t.reads) × (end_tick < s.clock n))

-- Its rounds ran out.
Short : Setting → ℕ → ℕ → Worker → Type 0
Short s end_tick rounds w =
    (rounds ≡ 0) ⊎ ((n : ℕ) × ((rounds + w.reads ≤ n + 1) × (s.clock n ≤ end_tick)))

Spins : Setting → ℕ → ℕ → ℕ → ℕ → Worker → Option Worker → Type 0
Spins s end_tick q more rounds w m =
    ((t : Worker) × ((m ≡ some t) × Spun end_tick s q more w t))
    ⊎ ((m ≡ none) × Short s end_tick rounds w)

execute-Spins :
    (s : Setting) (end_tick q more rounds : ℕ) (w : Worker)
    → 0 < more
    → Lags q more w
    → Spins s end_tick q more rounds w (execute s end_tick rounds q w)
unfolding execute schedule Spins Short
execute-Spins s end_tick q more zero w pos l = inr (refl, inl refl)
execute-Spins s end_tick q more (suc rounds) w pos l =
    let w0 = record w { current = some q } in
    let r = execute_round s q w0 in
    let o =
      execute_round-Undone s q more w0 pos
        (record { jobs_filled = l.jobs_filled; counted = l.counted }) in
    go r o (
      execute-Spins s end_tick q more rounds (record r.1 { reads = r.1.reads + 1 }) pos
        (record { jobs_filled = o.leaves.lags.jobs_filled; counted = o.leaves.lags.counted }))
  where
    go :
        (r : Bool × Worker)
        → Undone q more (record w { current = some q }) r
        → Spins s end_tick q more rounds
            (record r.1 { reads = r.1.reads + 1 })
            (execute s end_tick rounds q (record r.1 { reads = r.1.reads + 1 }))
        → Spins s end_tick q more (suc rounds) w (
            if r.0
            then some (record r.1 { current = none })
            else if ltb end_tick (s.clock r.1.reads)
            then some (schedule q (record r.1 { reads = r.1.reads + 1; current = none }))
            else execute s end_tick rounds q (record r.1 { reads = r.1.reads + 1 }))
    go (true, u) o again = ground (arith, o.undone)
    go (false, u) o again = clock (ltb end_tick (s.clock u.reads)) refl
      where
        clock :
            (b : Bool)
            → ltb end_tick (s.clock u.reads) ≡ b
            → Spins s end_tick q more (suc rounds) w (
                if b
                then some (schedule q (record u { reads = u.reads + 1; current = none }))
                else execute s end_tick rounds q (record u { reads = u.reads + 1 }))
        clock true h = inl (
          schedule q (record u { reads = u.reads + 1; current = none }),
          (
            refl,
            record {
              lags = record {
                jobs_filled = o.leaves.lags.jobs_filled;
                counted = o.leaves.lags.counted;
              };
              global = ground (arith, o.leaves.global, times-push q q u.global);
              why = (u.reads, (o.later, omega arith, ground (arith, h)));
            },
          ),
        )
        clock false h = elim again [
          | inl (t, (e, p)) ↦ inl (
            t,
            (
              e,
              record {
                lags = p.lags;
                global = ground (arith, p.global, o.leaves.global);
                why = (let (n, (a, b, c)) = p.why in (n, (omega (arith, a, o.later), b, c)));
              },
            ),
          )
          | inr (e, inl z) ↦ inr (e, inr (u.reads, (omega (arith, z, o.later), ground (arith, h))))
          | inr (e, inr (n, (a, b))) ↦ inr (e, inr (n, (omega (arith, a, o.later), b)))
        ]

-- A queue was cleared while it had jobs and nobody executed it; since then jobs were posted to queues, Execute
-- ran it, and DoGlobalQueueWork took queues out of the global queue and looked at the clock.
pub data Cleared (s : Setting) (q : ℕ) : Worker → Type 0 where
  clears : {w : Worker} → Settled w → 0 < w.counts q → Cleared s q (clear_jobs q w)
  posts : {w : Worker} (d job : ℕ) → Cleared s q w → Cleared s q (post d job w)
  takes :
      {w : Worker} (global : List (Option ℕ)) (reads : ℕ)
      → Cleared s q w
      → Cleared s q (record w { global = global; reads = reads })
  executes :
      {w t : Worker} (end_tick rounds : ℕ)
      → Cleared s q w
      → execute s end_tick rounds q w ≡ some t
      → Cleared s q t

Cleared-Lags :
    (s : Setting) (q : ℕ) {w : Worker} → Cleared s q w → (more : ℕ) × ((0 < more) × Lags q more w)
unfolding clear_jobs LockQueue.clear Spins Short
Cleared-Lags s q (Cleared.clears {w} h pos) =
    (w.counts q, (pos, record { jobs_filled = ground arith; counted = ground arith }))
Cleared-Lags s q (Cleared.posts {w} d job c) =
    let (more, (pos, l)) = Cleared-Lags s q c in
    (more, (pos, (post-Leaves q more d job w pos l).lags))
Cleared-Lags s q (Cleared.takes global reads c) =
    let (more, (pos, l)) = Cleared-Lags s q c in
    (more, (pos, record { jobs_filled = l.jobs_filled; counted = l.counted }))
Cleared-Lags s q (Cleared.executes {w} {t} end_tick rounds c e) =
    let (more, (pos, l)) = Cleared-Lags s q c in
    elim (execute-Spins s end_tick q more rounds w pos l) [
      | inl (u, (e', p)) ↦ let same : u ≡ t = cc in (more, (pos, subst (Lags q more) same p.lags))
      | inr (e', short) ↦ ground (arith, e, e')
    ]

-- A job queue that was cleared while it had jobs never rests: Execute then always runs on until the clock is past the
-- end tick, with or without jobs, and schedules the queue again, whose count stays above 0. The clock is past
-- the end tick from the call `late` on, and the rounds are enough for it.
pub clear_jobs-restless :
    (s : Setting) (end_tick late rounds q : ℕ) (w : Worker)
    → Cleared s q w
    → PastFrom s end_tick late
    → Enough late rounds w
    → (t : Worker) × ((execute s end_tick rounds q w ≡ some t)
        × ((n : ℕ) × ((w.reads ≤ n) × (n < t.reads) × (end_tick < s.clock n)))
        × (times q t.global ≡ times q w.global + 1)
        × (0 < t.counts q))
unfolding Spins Short
clear_jobs-restless s end_tick late rounds q w c past enough =
    let (more, (pos, l)) = Cleared-Lags s q c in
    elim (execute-Spins s end_tick q more rounds w pos l) [
      | inl (t, (e, p)) ↦ (t, (e, p.why, p.global, omega (arith, p.lags.counted, pos)))
      | inr (e, inl z) ↦ absurd (omega (arith, z, enough.0))
      | inr (e, inr (n, (a, b))) ↦ absurd (omega (arith, b, past n (omega (arith, a, enough.1))))
    ]
