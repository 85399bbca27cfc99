-- ===== src/RefCounting/Kept.antt =====
-- Every operation keeps the counts.
use cplus_server_core_model.RefCounting.Counting.{
  IsCounted, IsLive, is_it, holders, set-IsCounted, make-IsCounted, pointer-holders, holders-assign,
  length-assign, release-IsCounted, holders-le,
}
use cplus_server_core_model.RefCounting.{
  Store, make, pointer, release, let_go, construct, construct_copy, construct_move, same,
  assign_copy, assign_move, ℕ, Option,
}
use cplus_server_core_model.Prelude.{
  ℕ, length, Option, ◌≡◌, List, ◌<◌, ◌+◌, some, assign, none, Bool-cases, arith, ◌^◌, ◌∷◌, inl, ap,
  if◌then◌else◌, refl, suc, inr, ◌==◌, [], zero,
}

named-IsLive : (i : ℕ) (s : Store) → IsCounted s → IsLive (pointer i s.handles) s
named-IsLive i s v = go (pointer i s.handles) refl
  where
    go : (p : Option ℕ) → pointer i s.handles ≡ p → IsLive p s
    go none e = tt
    go (some o) e = ground (arith, v.gone o, v.once o, pointer-holders i s.handles o e)

added-IsCounted :
    (s : Store)
    → length s.handles + 1 < 2 ^ 31
    → IsCounted s
    → IsCounted (record s { handles = none ∷ s.handles })
added-IsCounted s h v = record {
  counts = λ q. omega (arith, v.counts q);
  small = omega arith;
  once = v.once;
  gone = λ q d. omega (arith, v.gone q d);
}

construct-IsCounted :
    (p : Option ℕ) (s : Store)
    → IsLive p s
    → length s.handles + 1 < 2 ^ 31
    → IsCounted s
    → IsCounted (construct p s)
unfolding construct
construct-IsCounted none s l h v =
    set-IsCounted 0 none (record s { handles = none ∷ s.handles }) (added-IsCounted s h v)
      (omega arith) refl tt
construct-IsCounted (some o) s l h v =
    set-IsCounted 0 (some o) (record s { handles = none ∷ s.handles }) (added-IsCounted s h v)
      (omega arith) refl l

-- A variable takes over what another names.
moved-holders :
    (o i : ℕ) (ps : List (Option ℕ))
    → is_it o (pointer i ps) + holders o (assign i none ps) ≡ holders o ps
moved-holders o i [] = refl
moved-holders o zero (p ∷ ps) = omega arith
moved-holders o (suc i) (p ∷ ps) = omega (arith, moved-holders o i ps)

construct_move-IsCounted :
    (i : ℕ) (s : Store)
    → length s.handles + 1 < 2 ^ 31
    → IsCounted s
    → IsCounted (construct_move i s)
unfolding construct_move
construct_move-IsCounted i s h v = record {
  counts = λ q. omega (arith, v.counts q, moved-holders q i s.handles);
  small = omega (arith, length-assign i none s.handles);
  once = v.once;
  gone = λ q d. omega (arith, v.gone q d, moved-holders q i s.handles);
}

pointer-assign_self :
    (i : ℕ) (p : Option ℕ) (ps : List (Option ℕ)) → i < length ps → pointer i (assign i p ps) ≡ p
pointer-assign_self i p [] h = absurd (omega arith)
pointer-assign_self zero p (q ∷ ps) h = refl
pointer-assign_self (suc i) p (q ∷ ps) h = pointer-assign_self i p ps (omega arith)

let_go-empty :
    (i : ℕ) (p : Option ℕ) (s : Store)
    → pointer i s.handles ≡ p
    → i < length s.handles
    → (pointer i (let_go i p s).handles ≡ none) × (length (let_go i p s).handles ≡ length s.handles)
unfolding let_go
let_go-empty i none s e h = (e, refl)
let_go-empty i (some o) s e h =
    ground (arith, pointer-assign_self i none s.handles h, length-assign i none s.handles)

release-empty :
    (i : ℕ) (s : Store)
    → i < length s.handles
    → (pointer i (release i s).handles ≡ none) × (length (release i s).handles ≡ length s.handles)
unfolding release
release-empty i s h = let_go-empty i (pointer i s.handles) s refl h

assign_copy-IsCounted :
    (i rhs : ℕ) (s : Store) → i < length s.handles → IsCounted s → IsCounted (assign_copy i rhs s)
unfolding assign_copy
assign_copy-IsCounted i rhs s h v =
    elim (Bool-cases (same (pointer i s.handles) (pointer rhs s.handles))) [
      | inl e ↦ rw e v
      | inr e ↦
          let s' = release i s in
          let v' = release-IsCounted i s v in
          let r = release-empty i s h in
          rw e (
            set-IsCounted i (pointer rhs s'.handles) s' v' (omega (arith, r.1)) r.0
              (named-IsLive rhs s' v'))
    ]

pointer-assign_other :
    (i j : ℕ) (ps : List (Option ℕ)) → pointer j (assign i (pointer j ps) ps) ≡ pointer j ps
pointer-assign_other i j [] = refl
pointer-assign_other zero zero (p ∷ ps) = refl
pointer-assign_other zero (suc j) (p ∷ ps) = refl
pointer-assign_other (suc i) zero (p ∷ ps) = refl
pointer-assign_other (suc i) (suc j) (p ∷ ps) = pointer-assign_other i j ps

-- The object goes from one place to another.
moved-holders_between :
    (o i j : ℕ) (ps : List (Option ℕ))
    → i < length ps
    → pointer i ps ≡ none
    → holders o (assign j none (assign i (pointer j ps) ps)) ≡ holders o ps
moved-holders_between o i j ps h e = omega (
  arith,
  moved-holders o j (assign i (pointer j ps) ps),
  holders-assign o i (pointer j ps) ps h,
  ap (is_it o) e,
  ap (is_it o) (pointer-assign_other i j ps),
)

assign_move-IsCounted :
    (i rhs : ℕ) (s : Store) → i < length s.handles → IsCounted s → IsCounted (assign_move i rhs s)
unfolding assign_move
assign_move-IsCounted i rhs s h v =
    let s' = release i s in
    let v' = release-IsCounted i s v in
    let r = release-empty i s h in
    record {
      counts = λ q.
          omega
            (arith, v'.counts q, moved-holders_between q i rhs s'.handles (omega (arith, r.1)) r.0);
      small = omega (
        arith,
        v'.small,
        length-assign i (pointer rhs s'.handles) s'.handles,
        length-assign rhs none (assign i (pointer rhs s'.handles) s'.handles),
      );
      once = v'.once;
      gone = λ q d.
          omega
            (arith, v'.gone q d, moved-holders_between q i rhs s'.handles (omega (arith, r.1)) r.0);
    }

-- What a program does with its variables. A raw pointer that it gives to a new variable is of an
-- object that was not deleted, and there are fewer than 2 ^ 31 variables.
pub data Step (s : Store) : Store → Type 0 where
  constructs : (p : Option ℕ) → IsLive p s → length s.handles + 1 < 2 ^ 31 → Step s (construct p s)
  copies : (rhs : ℕ) → length s.handles + 1 < 2 ^ 31 → Step s (construct_copy rhs s)
  moves : (rhs : ℕ) → length s.handles + 1 < 2 ^ 31 → Step s (construct_move rhs s)
  assigns_copy : (i rhs : ℕ) → i < length s.handles → Step s (assign_copy i rhs s)
  assigns_move : (i rhs : ℕ) → i < length s.handles → Step s (assign_move i rhs s)
  destroys : (i : ℕ) → Step s (release i s)

pub data Reach : Store → Type 0 where
  start : Reach make
  later : {s t : Store} → Reach s → Step s t → Reach t

Step-IsCounted : {s t : Store} → Step s t → IsCounted s → IsCounted t
unfolding construct_copy
Step-IsCounted {s} (constructs p l h) v = construct-IsCounted p s l h v
Step-IsCounted {s} (copies rhs h) v =
    construct-IsCounted (pointer rhs s.handles) s (named-IsLive rhs s v) h v
Step-IsCounted {s} (moves rhs h) v = construct_move-IsCounted rhs s h v
Step-IsCounted {s} (assigns_copy i rhs h) v = assign_copy-IsCounted i rhs s h v
Step-IsCounted {s} (assigns_move i rhs h) v = assign_move-IsCounted i rhs s h v
Step-IsCounted {s} (destroys i) v = release-IsCounted i s v

-- Whatever a program does with its variables, one call after the other, if the objects hold no
-- TSharedPtr themselves, the count of each object is the number of variables that name it, no object
-- is deleted twice, and none is deleted that a variable names. A raw pointer is given to a new
-- variable only if its object was not deleted, and there are fewer than 2 ^ 31 variables.
pub Reach-IsCounted : {s : Store} → Reach s → IsCounted s
Reach-IsCounted Reach.start = make-IsCounted
Reach-IsCounted (Reach.later r st) = Step-IsCounted st (Reach-IsCounted r)

-- Among objects that hold no TSharedPtr themselves, the last variable that names an object deletes
-- it, once, by Release or by its destructor; one that is not the last does not.
pub release-deletes :
    {s : Store}
    → Reach s
    → (i o : ℕ) → pointer i s.handles ≡ some o
    → (release i s).deletions o ≡ (if holders o s.handles == 1 then 1 else 0)
unfolding release let_go
release-deletes {s} r i o e =
    let v = Reach-IsCounted r in
    let some_left = pointer-holders i s.handles o e in
    let many = holders-le o s.handles in
    rw e (ground (arith, v.counts o, v.gone o, v.once o, v.small))
