-- ===== src/JobTimer/Due.antt =====
-- Which jobs Distribute hands out, and in what order.
use cplus_server_core_model.JobTimer.{
  TimerItem, Out, here, there, All, PriorityQueue, lesser, take_due, distribute, pushed, Bool, List,
  ℕ, ◌∷◌, some, suc, false, ltb, map,
}
use cplus_server_core_model.Prelude.{
  Bool, List, ℕ, length, ◌≤◌, ◌≡◌, ◌<◌, if◌then◌else◌, ◌+◌, some, [], arith, refl, dec_lt, zero,
  false, ltb, true, map,
}

-- How many items have a property.
abbrev pub count : (TimerItem → Bool) → List TimerItem → ℕ
count f [] = 0
count f (x ∷ xs) = (if f x then 1 else 0) + count f xs

count-Out :
    (f : TimerItem → Bool) (x : TimerItem) {xs ys : List TimerItem}
    → Out x xs ys
    → count f xs ≡ (if f x then 1 else 0) + count f ys
count-Out f x here = refl
count-Out f x (there {y = y} o) = omega (arith, count-Out f x o)

length-Out : {x : TimerItem} {xs ys : List TimerItem} → Out x xs ys → length xs ≡ length ys + 1
length-Out here = omega arith
length-Out (there o) = omega (arith, length-Out o)

-- Each item comes no later than those behind it.
abbrev pub IsSorted : List TimerItem → Type 0
IsSorted [] = Unit
IsSorted (x ∷ xs) = All (λ y. x.execute_tick ≤ y.execute_tick) xs × IsSorted xs

-- What is due at `now`, and what is left, of these items.
pub record Splits (now : ℕ) (items due left : List TimerItem) : Type 0 where
  pub sorted : IsSorted due
  pub is_due : All (λ x. x.execute_tick ≤ now) due
  pub is_later : All (λ x. now < x.execute_tick) left
  pub nothing_lost : (f : TimerItem → Bool) → count f due + count f left ≡ count f items

Low : ℕ → List TimerItem → Type 0
Low n = All (λ y. n ≤ y.execute_tick)

Low-map :
    (n : ℕ) (top : TimerItem) (xs : List TimerItem)
    → n ≤ top.execute_tick
    → All (λ y. lesser top y ≡ false) xs
    → Low n xs
unfolding Low
Low-map n top [] h a = tt
Low-map n top (x ∷ xs) h a = (ground (arith, a.0), Low-map n top xs h a.1)

later_of_top :
    (now : ℕ) (top : TimerItem) (xs : List TimerItem)
    → now < top.execute_tick
    → All (λ y. lesser top y ≡ false) xs
    → All (λ y. now < y.execute_tick) xs
later_of_top now top [] h a = tt
later_of_top now top (x ∷ xs) h a = (ground (arith, a.0), later_of_top now top xs h a.1)

Low-Out :
    (n : ℕ) {x : TimerItem} {xs ys : List TimerItem}
    → Out x xs ys
    → Low n xs
    → (n ≤ x.execute_tick) × Low n ys
unfolding Low
Low-Out n here a = a
Low-Out n (there o) a = let r = Low-Out n o a.1 in (r.0, (a.0, r.1))

-- The loop's result, with what its callers in the loop need.
Taken : PriorityQueue → ℕ → ℕ → List TimerItem → Type 0
Taken q rounds now items =
    (due : List TimerItem) × (left : List TimerItem) × (take_due q rounds now items
      ≡ some (due, left))
    × (Splits now items due left × ((n : ℕ) → Low n items → Low n due))

none_due :
    (q : PriorityQueue) (k now : ℕ) (items : List TimerItem)
    → take_due q (suc k) now items ≡ some ([], items)
    → All (λ y. now < y.execute_tick) items
    → Taken q (suc k) now items
unfolding Taken Low
none_due q k now items e a = (
  [],
  items,
  e,
  (record { sorted = tt; is_due = tt; is_later = a; nothing_lost = λ f. omega arith }, λ n l. tt),
)

one_due :
    (q : PriorityQueue) (k now : ℕ) (items : List TimerItem) {top : TimerItem}
    {rest : List TimerItem}
    → ((due left : List TimerItem)
        → take_due q k now rest ≡ some (due, left)
        → take_due q (suc k) now items ≡ some (top ∷ due, left))
    → Out top items rest
    → All (λ y. lesser top y ≡ false) items
    → top.execute_tick ≤ now
    → Taken q k now rest
    → Taken q (suc k) now items
unfolding Taken Low
one_due q k now items {top = top} {rest = rest} goes o first h (due, left, e, (sp, low)) = (
  top ∷ due,
  left,
  goes due left e,
  (
    record {
      sorted = (
        low top.execute_tick
            (Low-Out top.execute_tick o (Low-map top.execute_tick top items (omega arith) first)).1,
        sp.sorted,
      );
      is_due = (h, sp.is_due);
      is_later = sp.is_later;
      nothing_lost = λ f. omega (arith, sp.nothing_lost f, count-Out f top o);
    },
    λ n l. let r = Low-Out n o l in (r.0, low n r.1),
  ),
)

take_due-Taken :
    (q : PriorityQueue) (rounds now : ℕ) (items : List TimerItem)
    → length items < rounds
    → Taken q rounds now items
unfolding take_due
take_due-Taken q zero now items h = absurd (omega arith)
take_due-Taken q (suc k) now [] h = none_due q k now [] (rw (q.pop_nil, take_due) refl) tt
take_due-Taken q (suc k) now (x ∷ xs) h =
    let (top, rest, e, (o, first)) = q.pop_cons x xs in
    elim (dec_lt now top.execute_tick) [
      | yes l ↦
          let b : ltb now top.execute_tick ≡ true = ground arith in
          none_due q k now (x ∷ xs) (rw (e, take_due, b) refl)
            (later_of_top now top (x ∷ xs) l first)
      | no l ↦
          let b : ltb now top.execute_tick ≡ false = ground arith in
          one_due q k now (x ∷ xs) {top = top} {rest = rest}
            (λ due left r. rw (e, take_due, b, r) refl) o first (omega arith)
            (take_due-Taken q k now rest (omega (arith, length-Out o)))
    ]

pub distribute-Splits :
    (q : PriorityQueue) (exists : ℕ → Bool) (rounds now : ℕ) (items : List TimerItem)
    → length items < rounds
    → (due : List TimerItem) × (left : List TimerItem) × (distribute q exists rounds now
          (record { items = items; distributing = false })
        ≡ some (
          record { items = left; distributing = false },
          (pushed exists due, map (λ x. x.job_data) due),
        ))
      × Splits now items due left
unfolding distribute Taken
distribute-Splits q exists rounds now items h =
    let (due, left, e, (sp, low)) = take_due-Taken q rounds now items h in
    (due, left, rw e refl, sp)
