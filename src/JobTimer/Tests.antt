-- ===== src/JobTimer/Tests.antt =====
-- A priority queue that looks through its list for the first item with the least tick.
use cplus_server_core_model.JobTimer.{
  TimerItem, PriorityQueue, Out, here, there, All, lesser, Option, List, some, none, [], false, map,
}
use cplus_server_core_model.Prelude.{
  Option, List, ◌≤◌, some, none, ◌∷◌, refl, [], ◌≡◌, false, arith, if◌then◌else◌, map, leb, dec_lt,
  true,
}

before :
    TimerItem
    → Option (TimerItem × List TimerItem)
    → List TimerItem
    → Option (TimerItem × List TimerItem)
before x none xs = some (x, [])
before x (some (y, ys)) xs =
    if leb x.execute_tick y.execute_tick then some (x, xs) else some (y, x ∷ ys)

pop_least : List TimerItem → Option (TimerItem × List TimerItem)
unfolding before
pop_least [] = none
pop_least (x ∷ xs) = before x (pop_least xs) xs

none_lesser :
    (x y : TimerItem) (xs : List TimerItem)
    → x.execute_tick ≤ y.execute_tick
    → All (λ z. lesser y z ≡ false) xs
    → All (λ z. lesser x z ≡ false) xs
none_lesser x y [] h a = tt
none_lesser x y (z ∷ zs) h a = (ground (arith, a.0), none_lesser x y zs h a.1)

pop_least-top :
    (x : TimerItem) (xs : List TimerItem)
    → (top : TimerItem) × (rest : List TimerItem) × (pop_least (x ∷ xs) ≡ some (top, rest))
      × (Out top (x ∷ xs) rest × All (λ y. lesser top y ≡ false) (x ∷ xs))
unfolding pop_least before
pop_least-top x [] = (x, [], refl, (here, (ground arith, tt)))
pop_least-top x (y ∷ ys) =
    let (top, rest, e, (o, a)) = pop_least-top y ys in
    elim (dec_lt top.execute_tick x.execute_tick) [
      | yes l ↦
          let b : leb x.execute_tick top.execute_tick ≡ false = ground arith in
          (top, x ∷ rest, rw (e, pop_least, before, b) refl, (there o, (ground arith, a)))
      | no l ↦
          let b : leb x.execute_tick top.execute_tick ≡ true = ground arith in
          (
            x,
            y ∷ ys,
            rw (e, pop_least, before, b) refl,
            (here, (ground arith, none_lesser x top (y ∷ ys) (omega arith) a)),
          )
    ]

pub least_first : PriorityQueue
unfolding pop_least
least_first = record { pop = pop_least; pop_nil = refl; pop_cons = pop_least-top }

abbrev items : List TimerItem
items =
    record { execute_tick = 30; job_data = 1 }
    ∷ record { execute_tick = 10; job_data = 2 }
    ∷ record { execute_tick = 20; job_data = 3 }
    ∷ []
