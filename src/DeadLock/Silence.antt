-- ===== src/DeadLock/Silence.antt =====
-- What PushLock and PopLock come to: Dfs turns back at once, so that no cycle is reported.
use cplus_server_core_model.DeadLock.{
  Profiler, Search, dfs, search_from, check_cycle, number, note_inside, push_lock, pop_lock, ℕ,
  List, suc, some, replicate, ◌∷◌, Option, none, ok, length, at, find,
}
use cplus_server_core_model.Prelude.{
  ℕ, ◌≡◌, ◌<◌, List, ◌+◌, suc, some, replicate, arith, Option, none, ok, ap, length, [], refl, ◌∙◌,
  zero, at, find, find-store,
}

-- The id of a name is found again.
find-number :
    (name : ℕ) (p : Profiler) → find name (number name p).1.name_to_id ≡ some (number name p).0
unfolding number
find-number name p = ground (arith, find-store name name (length p.name_to_id) p.name_to_id)

unseen : ℕ → List (Option ℕ)
unseen n = replicate n none

at-replicate : (i n : ℕ) → i < n → at i (unseen n) ≡ some none
unfolding unseen
at-replicate i zero h = absurd (omega arith)
at-replicate zero (suc n) h = refl
at-replicate (suc i) (suc n) h = at-replicate i n (omega arith)

dfs-fresh :
    (rounds : ℕ) (p : Profiler) (here : ℕ) (s : Search)
    → at here s.discovered_order ≡ some none
    → dfs (suc rounds) p here s ≡ some (ok s)
unfolding dfs
dfs-fresh rounds p here s e = rw e refl

search_from-fresh :
    (rounds : ℕ) (p : Profiler) (i more n : ℕ) (s : Search)
    → i + more ≡ n
    → s.discovered_order ≡ unseen n
    → search_from (suc rounds) p i more s ≡ some (ok s)
unfolding search_from
search_from-fresh rounds p i zero n s h e = refl
search_from-fresh rounds p i (suc more) n s h e =
    let here : at i s.discovered_order ≡ some none = ap (at i) e ∙ at-replicate i n (omega arith) in
    rw (dfs-fresh rounds p i s here) (search_from-fresh rounds p (suc i) more n s (omega arith) e)

check_cycle_lem :
    (rounds : ℕ) (p : Profiler) → (s : Search) × (check_cycle (suc rounds) p ≡ some (ok s))
unfolding check_cycle unseen
check_cycle_lem rounds p =
    let n = length p.name_to_id in (_, search_from-fresh rounds p 0 n n _ (omega arith) refl)

-- The profiler as PushLock leaves it.
abbrev pub noted : ℕ → Profiler → List ℕ → Profiler
noted name p stack = (note_inside (number name p).0 stack (number name p).1).1

name_to_id-note_inside :
    (id : ℕ) (p : Profiler) (stack : List ℕ) → (note_inside id stack p).1.name_to_id ≡ p.name_to_id
unfolding note_inside
name_to_id-note_inside id p [] = refl
name_to_id-note_inside id p (pre ∷ stack) = ground arith

-- PushLock never reports a deadlock, whatever locks were ever taken inside others: it notes the
-- lock and puts its id on the stack, and one round of Dfs is enough.
pub push_lock-silent :
    (rounds name : ℕ) (p : Profiler) (stack : List ℕ)
    → push_lock (suc rounds) name p stack
      ≡ some (ok (noted name p stack, (number name p).0 ∷ stack))
unfolding push_lock
push_lock-silent rounds name p stack =
    let (s, e) = check_cycle_lem rounds (noted name p stack) in ground (arith, e)

-- A lock that is taken and released leaves the thread's stack as it was: PopLock after PushLock
-- neither crashes nor changes what the profiler has noted.
pub pop_lock-push_lock :
    (rounds name : ℕ) (p : Profiler) (stack : List ℕ)
    → (q : Profiler) × (inner : List ℕ) × (push_lock (suc rounds) name p stack
        ≡ some (ok (q, inner)))
      × (pop_lock name q inner ≡ ok (q, stack))
unfolding pop_lock
pop_lock-push_lock rounds name p stack =
    let e =
      ap (find name) (name_to_id-note_inside (number name p).0 (number name p).1 stack)
      ∙ find-number name p in
    (_, _, push_lock-silent rounds name p stack, rw e (ground arith))
