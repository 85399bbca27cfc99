-- ===== src/Worker/Settled.antt =====
-- The job queues of a worker: a queue stands in the global queue, once, when it has jobs and nobody executes it.
use cplus_server_core_model.LockQueue
use cplus_server_core_model.Worker.{
  Deed, pushes, reserves, Setting, Worker, enqueue, schedule, post, reserve, perform, run_jobs,
}
use cplus_server_core_model.JobTimer.{JobTimer}
use cplus_server_core_model.Prelude.{
  ℕ, List, Bool, Option, [], ◌∷◌, none, some, true, false, ◌==◌, ◌≡◌, ◌<◌, ◌+◌, ◌++◌, ◌||◌,
  if◌then◌else◌, length, length-append, arith, refl,
}

-- No null reference.
abbrev pub filled : List (Option ℕ) → Bool
filled [] = true
filled (none ∷ xs) = false
filled (some x ∷ xs) = filled xs

-- How often a queue stands in a list.
abbrev pub times : ℕ → List (Option ℕ) → ℕ
times q [] = 0
times q (none ∷ xs) = times q xs
times q (some d ∷ xs) = (if d == q then 1 else 0) + times q xs

pub filled-push : (x : ℕ) (xs : List (Option ℕ)) → filled (LockQueue.push (some x) xs) ≡ filled xs
unfolding LockQueue.push
filled-push x [] = refl
filled-push x (none ∷ xs) = refl
filled-push x (some y ∷ xs) = filled-push x xs

pub times-push :
    (q x : ℕ) (xs : List (Option ℕ))
    → times q (LockQueue.push (some x) xs) ≡ times q xs + (if x == q then 1 else 0)
unfolding LockQueue.push
times-push q x [] = omega arith
times-push q x (none ∷ xs) = times-push q x xs
times-push q x (some y ∷ xs) = omega (arith, times-push q x xs)

pub length-push :
    (x : Option ℕ) (xs : List (Option ℕ)) → length (LockQueue.push x xs) ≡ length xs + 1
unfolding LockQueue.push
length-push x xs = length-append xs (x ∷ [])

pub pop_all-filled :
    (xs : List (Option ℕ))
    → filled xs ≡ true
    → (length (LockQueue.pop_all xs).0 ≡ length xs) × ((LockQueue.pop_all xs).1 ≡ [])
unfolding LockQueue.pop_all
pop_all-filled [] h = (refl, refl)
pop_all-filled (none ∷ xs) h = ground (arith, h)
pop_all-filled (some x ∷ xs) h = let rest = pop_all-filled xs h in (omega (arith, rest.0), rest.1)

-- The jobs that a queue counts beside those in it, which are those that Execute has taken, and the queues
-- that are being executed.
pub record Fits (lead : ℕ → ℕ) (held : ℕ → Bool) (w : Worker) : Type 0 where
  pub jobs_filled : (q : ℕ) → filled (w.jobs q) ≡ true
  pub counted : (q : ℕ) → w.counts q ≡ length (w.jobs q) + lead q
  pub global_filled : filled w.global ≡ true
  pub stands : (q : ℕ) → times q w.global ≡ (if held q || w.counts q == 0 then 0 else 1)
  pub kept : (q : ℕ) → held q ≡ true → 0 < w.counts q

-- Between the calls.
pub record Settled (w : Worker) : Type 0 where
  pub fits : Fits (λ q. 0) (λ q. false) w
  pub idle : w.timer.distributing ≡ false
  pub free : w.current ≡ none

module _ {lead : ℕ → ℕ} {held : ℕ → Bool} where
  -- The rest of the worker does not matter.
  pub beside :
      {w : Worker} {timer : JobTimer} {current : Option ℕ} {reads : ℕ} {executed : List (ℕ × ℕ)}
      → Fits lead held w
      → Fits lead held
          (record w { timer = timer; current = current; reads = reads; executed = executed })
  beside f = record {
    jobs_filled = f.jobs_filled;
    counted = f.counted;
    global_filled = f.global_filled;
    stands = f.stands;
    kept = f.kept;
  }

  pub post-Fits : (q job : ℕ) (w : Worker) → Fits lead held w → Fits lead held (post q job w)
  unfolding post enqueue schedule
  post-Fits q job w f = record {
    jobs_filled = λ d. ground (arith, f.jobs_filled d, f.jobs_filled q, filled-push job (w.jobs q));
    counted = λ d. ground (arith, f.counted d, f.counted q, length-push (some job) (w.jobs q));
    global_filled = ground (arith, f.global_filled, filled-push q w.global);
    stands = λ d. ground (arith, f.stands d, f.stands q, f.kept d, times-push d q w.global);
    kept = λ d h. ground (arith, f.kept d h);
  }

  pub perform-Fits :
      (s : Setting) (ds : List Deed) (w : Worker)
      → Fits lead held w
      → Fits lead held (perform s ds w)
  unfolding perform reserve
  perform-Fits s [] w f = f
  perform-Fits s (pushes q job ∷ ds) w f = perform-Fits s ds (post q job w) (post-Fits q job w f)
  perform-Fits s (reserves tick_after job_data ∷ ds) w f =
      perform-Fits s ds (reserve s tick_after job_data w) (beside f)

  pub run_jobs-Fits :
      (s : Setting) (q : ℕ) (jobs : List ℕ) (w : Worker)
      → Fits lead held w
      → Fits lead held (run_jobs s q jobs w)
  unfolding run_jobs
  run_jobs-Fits s q [] w f = f
  run_jobs-Fits s q (job ∷ jobs) w f =
      let w' = record w { executed = w.executed ++ (q, job) ∷ [] } in
      run_jobs-Fits s q jobs (perform s (s.deeds job) w')
        (perform-Fits s (s.deeds job) w' (beside f))
