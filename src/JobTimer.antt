-- ===== src/JobTimer.antt =====
-- ServerCore/JobTimer.{h,cpp}: jobs that wait for their tick. A JobData is a number, and
-- `GetTickCount64` an argument. The vector of the priority queue is a list.
pub mod Due
pub mod Tests
use Prim.Native.Nat.{ℕ, suc}
use Prim.Native.String.{[], ◌∷◌}
use cplus_server_core_model.Prelude.{
  ℕ, Bool, List, [], ltb, Option, false, map, ◌∷◌, ◌+◌, ◌≡◌, none, if◌then◌else◌, ◌%◌, some, ◌^◌,
  zero,
}

pub record TimerItem : Type 0 where
  pub execute_tick : ℕ
  pub job_data : ℕ

-- `operator <`: the later one is the lesser.
abbrev pub lesser : TimerItem → TimerItem → Bool
lesser a b = ltb b.execute_tick a.execute_tick

-- `Out x xs ys`: `xs` without one `x` is `ys`.
pub data Out (x : TimerItem) : List TimerItem → List TimerItem → Type 0 where
  here : {xs : List TimerItem} → Out x (x ∷ xs) xs
  there : {y : TimerItem} {xs ys : List TimerItem} → Out x xs ys → Out x (y ∷ xs) (y ∷ ys)

abbrev pub All : (TimerItem → Type 0) → List TimerItem → Type 0
All p [] = Unit
All p (x ∷ xs) = p x × All p xs

-- `std::priority_queue`: `top` is an item that is not lesser than any, and `pop` takes it out.
pub record PriorityQueue : Type 0 where
  pub pop : List TimerItem → Option (TimerItem × List TimerItem)
  pub pop_nil : pop [] ≡ none
  pub pop_cons :
      (x : TimerItem) (xs : List TimerItem)
      → (top : TimerItem) × (rest : List TimerItem) × (pop (x ∷ xs) ≡ some (top, rest))
        × (Out top (x ∷ xs) rest × All (λ y. lesser top y ≡ false) (x ∷ xs))

pub record JobTimer : Type 0 where
  pub items : List TimerItem
  pub distributing : Bool

abbrev pub make : JobTimer
make = record { items = []; distributing = false }

-- The tick is a uint64.
unfoldable pub reserve : ℕ → ℕ → ℕ → JobTimer → JobTimer
reserve now tick_after job_data t =
    let execute_tick = (now + tick_after) % 2 ^ 64 in
    record t { items = record { execute_tick = execute_tick; job_data = job_data } ∷ t.items }

-- The `while` of Distribute: the items that are due, and what stays. `none`: the rounds ran out.
unfoldable pub take_due :
    PriorityQueue → ℕ → ℕ → List TimerItem → Option (List TimerItem × List TimerItem)
take_due q zero now items = none
take_due q (suc rounds) now items =
    let go = λ (top : TimerItem) (rest : List TimerItem). add top (take_due q rounds now rest) in
    elim (q.pop items) [
      | none ↦ some ([], items)
      | some x ↦ if ltb now x.0.execute_tick then some ([], items) else go x.0 x.1
    ]
  where
    add :
        TimerItem
        → Option (List TimerItem × List TimerItem)
        → Option (List TimerItem × List TimerItem)
    add top none = none
    add top (some (due, left)) = some (top ∷ due, left)

-- The jobs whose owners still exist, which are pushed to them.
abbrev pub pushed : (ℕ → Bool) → List TimerItem → List ℕ
pushed exists [] = []
pushed exists (x ∷ xs) =
    let rest = pushed exists xs in if exists x.job_data then x.job_data ∷ rest else rest

-- Distribute: the timer, the jobs pushed, and the JobData given back to their pool.
unfoldable pub distribute :
    PriorityQueue → (ℕ → Bool) → ℕ → ℕ → JobTimer → Option (JobTimer × (List ℕ × List ℕ))
unfolding take_due
distribute q exists rounds now t =
    if t.distributing then some (t, ([], [])) else elim (take_due q rounds now t.items) [
      | none ↦ none
      | some (due, left) ↦ some (
        record { items = left; distributing = false },
        (pushed exists due, map (λ x. x.job_data) due),
      )
    ]

-- Clear: the timer, and the JobData given back.
unfoldable pub clear : JobTimer → JobTimer × List ℕ
clear t = (record t { items = [] }, map (λ x. x.job_data) t.items)
