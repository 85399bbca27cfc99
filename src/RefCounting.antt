-- ===== src/RefCounting.antt =====
-- ServerCore/RefCounting.h: intrusive reference counts. An object is a number, and a TSharedPtr
-- variable a place in `handles`, with the object that its `_ptr` names, if any. The count is the
-- int32 of the source as 32 bits, 0 in a new object. The objects are such that hold no TSharedPtr
-- themselves: their destructors change no variable and no count.
pub mod Counting
pub mod Kept
pub mod Tests
use Prim.Native.String.{[]}
use Prim.Native.Nat.{ℕ, suc}
use cplus_server_core_model.Prelude.{
  List, [], ℕ, Option, if◌then◌else◌, Bool, none, assign, ◌+◌, ◌∷◌, ◌==◌, some, true, ◌%◌, ◌^◌,
  ◌||◌, false, ◌-◌, zero, leb,
}

pub record Store : Type 0 where
  pub handles : List (Option ℕ)
  pub ref_count : ℕ → ℕ
  pub deletions : ℕ → ℕ  -- how often `xdelete(this)` was called on an object

abbrev pub make : Store
make = record { handles = []; ref_count = λ o. 0; deletions = λ o. 0 }

abbrev pub update : ℕ → ℕ → (ℕ → ℕ) → ℕ → ℕ
update o n f p = if p == o then n else f p

unfoldable add_ref : ℕ → Store → Store
add_ref o s = record s { ref_count = update o ((s.ref_count o + 1) % 2 ^ 32) s.ref_count }

-- `refCount <= 0`, as an int32.
abbrev not_positive : ℕ → Bool
not_positive n = n == 0 || leb (2 ^ 31) n

-- `xdelete(this)` runs a destructor that releases no TSharedPtr, and is counted.
unfoldable release_ref : ℕ → Store → Store
release_ref o s =
    let ref_count = (s.ref_count o + 2 ^ 32 - 1) % 2 ^ 32 in
    let s' = record s { ref_count = update o ref_count s.ref_count } in
    if not_positive ref_count
    then record s' { deletions = update o (s.deletions o + 1) s.deletions }
    else s'

-- The `_ptr` of a variable; a place that is no variable has none.
abbrev pub pointer : ℕ → List (Option ℕ) → Option ℕ
pointer i [] = none
pointer zero (p ∷ ps) = p
pointer (suc i) (p ∷ ps) = pointer i ps

unfoldable pub set : ℕ → Option ℕ → Store → Store
unfolding add_ref
set i none s = record s { handles = assign i none s.handles }
set i (some o) s = add_ref o (record s { handles = assign i (some o) s.handles })

-- `Release` of a variable that names this object.
unfoldable pub let_go : ℕ → Option ℕ → Store → Store
unfolding release_ref
let_go i none s = s
let_go i (some o) s = let s' = release_ref o s in record s' { handles = assign i none s'.handles }

-- `Release`, and the destructor.
unfoldable pub release : ℕ → Store → Store
unfolding let_go
release i s = let_go i (pointer i s.handles) s

-- `TSharedPtr(T*)`: a new variable, at place 0.
unfoldable pub construct : Option ℕ → Store → Store
unfolding set
construct p s = set 0 p (record s { handles = none ∷ s.handles })

unfoldable pub construct_copy : ℕ → Store → Store
unfolding construct
construct_copy rhs s = construct (pointer rhs s.handles) s

unfoldable pub construct_move : ℕ → Store → Store
construct_move rhs s = record s { handles = pointer rhs s.handles ∷ assign rhs none s.handles }

abbrev pub same : Option ℕ → Option ℕ → Bool
same none none = true
same none (some q) = false
same (some p) none = false
same (some p) (some q) = p == q

unfoldable pub assign_copy : ℕ → ℕ → Store → Store
unfolding release set
assign_copy i rhs s =
    if same (pointer i s.handles) (pointer rhs s.handles)
    then s
    else (let s' = release i s in set i (pointer rhs s'.handles) s')

unfoldable pub assign_move : ℕ → ℕ → Store → Store
unfolding release
assign_move i rhs s =
    let s' = release i s in
    record s' { handles = assign rhs none (assign i (pointer rhs s'.handles) s'.handles) }
