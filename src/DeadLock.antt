-- ===== src/DeadLock.antt =====
-- ServerCore/DeadLockProfiler.{h,cpp}: the locks that a debug build has seen a thread take, one
-- inside the other. A name is a pointer to its characters, and stands as a number. The lock of the
-- profiler makes each method one step. `_idToName`, which only the prints read, and the prints
-- themselves are left out.
pub mod Silence
pub mod Tests
use Prim.Native.Nat.{ℕ, suc}
use cplus_server_core_model.Prelude.{
  List, ℕ, Option, none, ◌∷◌, Bool, Outcome, some, length, if◌then◌else◌, false, ok, replicate, [],
  crash, ◌+◌, ◌==◌, ltb, leb, true, stray, multiple_unlock, zero, ◌||◌, deadlock_detected,
  invalid_unlock, assign, at, find, member, store, insert,
}

-- `_nameToId` and `_lockHistory`, as lists of entries.
pub record Profiler : Type 0 where
  pub name_to_id : List (ℕ × ℕ)
  pub lock_history : List (ℕ × List ℕ)

-- The vectors of a search, by lock id; `none` is -1.
pub record Search : Type 0 where
  pub discovered_order : List (Option ℕ)
  pub discovered_count : ℕ
  pub finished : List Bool
  pub parent : List (Option ℕ)

-- `none`: the rounds ran out.
abbrev pub Result : Type 0
Result = Option (Outcome Search)

abbrev then_go : Result → (Search → Result) → Result
then_go none f = none
then_go (some (ok s)) f = f s
then_go (some (crash c)) f = some (crash c)
then_go (some stray) f = some stray

-- One `there` of the loop in Dfs, with the places of both in the order of discovery.
unfoldable visit_one : (ℕ → Search → Result) → ℕ → ℕ → Search → Result
visit_one deeper here there s =
    let first = deeper there (record s { parent = assign there (some here) s.parent }) in
    judge (at here s.discovered_order) (at there s.discovered_order) (at there s.finished) first
  where
    judge : Option (Option ℕ) → Option (Option ℕ) → Option Bool → Result → Result
    judge (some (some a)) (some none) over first = first
    judge (some (some a)) (some (some b)) (some over) first =
        if leb a b
        then some (ok s)
        else if over
        then some (ok s)
        else some (crash deadlock_detected)
    judge (some none) there_order over first = some stray
    judge none there_order over first = some stray
    judge (some (some a)) none over first = some stray
    judge (some (some a)) (some (some b)) none first = some stray

unfoldable visit : (ℕ → Search → Result) → ℕ → List ℕ → Search → Result
unfolding visit_one
visit deeper here [] s = some (ok s)
visit deeper here (there ∷ history) s =
    then_go (visit_one deeper here there s) (visit deeper here history)

-- Behind the first line of Dfs.
unfoldable explore : (ℕ → Search → Result) → Profiler → ℕ → Search → Result
unfolding visit
explore deeper p here s =
    let s' = record s {
      discovered_order = assign here (some s.discovered_count) s.discovered_order;
      discovered_count = s.discovered_count + 1;
    } in
    let close = λ (t : Search). some (ok (record t { finished = assign here true t.finished })) in
    elim (find here p.lock_history) [
      | none ↦ close s'
      | some history ↦ then_go (visit deeper here history s') close
    ]

-- Dfs: its first line returns where the order is -1.
unfoldable pub dfs : ℕ → Profiler → ℕ → Search → Result
unfolding explore
dfs zero p here s = none
dfs (suc rounds) p here s =
    first_line (at here s.discovered_order) (explore (dfs rounds p) p here s)
  where
    first_line : Option (Option ℕ) → Result → Result
    first_line none rest = some stray
    first_line (some none) rest = some (ok s)
    first_line (some (some n)) rest = rest

-- The `for` of CheckCycle, from `i` on.
unfoldable pub search_from : ℕ → Profiler → ℕ → ℕ → Search → Result
unfolding dfs
search_from rounds p i zero s = some (ok s)
search_from rounds p i (suc more) s = then_go (dfs rounds p i s) (search_from rounds p (suc i) more)

unfoldable pub check_cycle : ℕ → Profiler → Result
unfolding search_from
check_cycle rounds p =
    let lock_count = length p.name_to_id in
    search_from rounds p 0 lock_count (record {
      discovered_order = replicate lock_count none;
      discovered_count = 0;
      finished = replicate lock_count false;
      parent = replicate lock_count none;
    })

-- The id of a name, a new one for a new name.
unfoldable pub number : ℕ → Profiler → ℕ × Profiler
number name p = elim (find name p.name_to_id) [
  | some id ↦ (id, p)
  | none ↦
      let id = length p.name_to_id in (id, record p { name_to_id = store name id p.name_to_id })
]

abbrev history_of : ℕ → Profiler → List ℕ
history_of id p = elim (find id p.lock_history) [ none ↦ [] | some ids ↦ ids ]

-- The lock `id`, taken inside the locks of the stack: whether an entry is new, and the profiler.
unfoldable pub note_inside : ℕ → List ℕ → Profiler → Bool × Profiler
note_inside id [] p = (false, p)
note_inside id (pre ∷ stack) p =
    let history = history_of pre p in
    if id == pre
    then (false, p)
    else if member id history
    then (false, record p { lock_history = store pre history p.lock_history })
    else (true, record p { lock_history = store pre (insert id history) p.lock_history })

-- PushLock, with the thread's LLockStacks, the top first.
unfoldable pub push_lock : ℕ → ℕ → Profiler → List ℕ → Option (Outcome (Profiler × List ℕ))
unfolding check_cycle note_inside number
push_lock rounds name p stack =
    let (id, numbered) = number name p in
    let (is_new, noted) = note_inside id stack numbered in
    let result : Result = check_cycle rounds noted in
    if is_new then settle (noted, id ∷ stack) result else some (ok (noted, id ∷ stack))
  where
    settle : Profiler × List ℕ → Result → Option (Outcome (Profiler × List ℕ))
    settle next none = none
    settle next (some (ok s)) = some (ok next)
    settle next (some (crash c)) = some (crash c)
    settle next (some stray) = some stray

-- PopLock; `_nameToId[name]` of a name without an id enters it with 0.
unfoldable pub pop_lock : ℕ → Profiler → List ℕ → Outcome (Profiler × List ℕ)
pop_lock name p [] = crash multiple_unlock
pop_lock name p (top ∷ stack) =
    let (id, p') = looked_up (find name p.name_to_id) in
    if top == id then ok (p', stack) else crash invalid_unlock
  where
    looked_up : Option ℕ → ℕ × Profiler
    looked_up (some id) = (id, p)
    looked_up none = (0, record p { name_to_id = store name 0 p.name_to_id })
