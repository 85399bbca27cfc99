-- ===== src/TypeCast/Convert.antt =====
-- TypeConversion, TypeCast and CanCast of ServerCore/TypeCast.h. `exists` is what the compiler finds for
-- `Conversion<const From*, const To*>::exists`, and a pointer is an address with the `_typeId` of
-- the object there.
use cplus_server_core_model.TypeCast.{length_of, type_at, index_of}
use cplus_server_core_model.TypeCast.Places.{IsFirst, index_of-IsFirst}
use cplus_server_core_model.Prelude.{
  ℕ, List, Option, Outcome, Bool, suc, false, stray, ok, ◌≡◌, if◌then◌else◌, none, some, leb, ◌==◌,
  ◌+◌, ◌&&◌, ltb, ◌>>=◌, zero, arith, refl, ap, ◌∙◌,
}

abbrev Table : Type 0
Table = ℕ → ℕ → Bool

abbrev set_entry : ℕ → ℕ → Bool → Table → Table
set_entry i j v f a b = if a == i && b == j then v else f a b

module _ (exists : ℕ → ℕ → Bool) (tl : List ℕ) where
  -- For an index outside of the list, the program does not compile.
  unfoldable pub exists_at : ℕ → ℕ → Bool
  exists_at i j = elim (type_at tl i) [
    | none ↦ false
    | some from ↦ elim (type_at tl j) [ none ↦ false | some to ↦ exists from to ]
  ]

  -- `MakeTable(Int2Type<i>, Int2Type<j>)` as long as some columns are left, and then for the rows.
  unfoldable pub make_row : ℕ → ℕ → ℕ → Table → Table
  make_row i j zero f = f
  make_row i j (suc left) f = make_row i (j + 1) left (set_entry i j (exists_at i j) f)

  unfoldable pub make_rows : ℕ → ℕ → Table → Table
  unfolding make_row
  make_rows i zero f = f
  make_rows i (suc left) f = make_rows (i + 1) left (make_row i 0 (length_of tl) f)

  unfoldable pub make_table : Table
  unfolding make_rows
  make_table = make_rows 0 (length_of tl) (λ i j. false)

  unfoldable pub can_convert : Option ℕ → Option ℕ → Outcome Bool
  unfolding make_table
  can_convert none to = stray
  can_convert (some i) none = stray
  can_convert (some i) (some j) =
      if ltb i (length_of tl) && ltb j (length_of tl) then ok (make_table i j) else stray

  -- `CanCast<To>` and `TypeCast<To>`, for both kinds of pointers.
  unfoldable pub can_cast : ℕ → Option (ℕ × Option ℕ) → Outcome Bool
  unfolding can_convert
  can_cast to none = ok false
  can_cast to (some (address, type_id)) = can_convert type_id (index_of tl to)

  -- `static_cast<To>` of an address is an argument: it may move the pointer.
  unfoldable pub type_cast : (ℕ → ℕ → ℕ) → ℕ → Option (ℕ × Option ℕ) → Outcome (Option ℕ)
  unfolding can_convert
  type_cast static_cast to none = ok none
  type_cast static_cast to (some (address, type_id)) = can_convert type_id (index_of tl to) >>= λ b.
      ok (if b then some (static_cast to address) else none)

  make_row_lem :
      (i j left : ℕ) (f : Table) (a b : ℕ)
      → make_row i j left f a b
        ≡ (if a == i && (leb j b && ltb b (j + left)) then exists_at a b else f a b)
  unfolding make_row
  make_row_lem i j zero f a b = ground arith
  make_row_lem i j (suc left) f a b =
      ground (arith, make_row_lem i (j + 1) left (set_entry i j (exists_at i j) f) a b)

  make_rows_lem :
      (i left : ℕ) (f : Table) (a b : ℕ)
      → make_rows i left f a b
        ≡ (if leb i a && (ltb a (i + left) && ltb b (length_of tl)) then exists_at a b else f a b)
  unfolding make_rows
  make_rows_lem i zero f a b = ground arith
  make_rows_lem i (suc left) f a b = ground (
    arith,
    make_rows_lem (i + 1) left (make_row i 0 (length_of tl) f) a b,
    make_row_lem i 0 (length_of tl) f a b,
  )

exists_at_lem :
    (exists : ℕ → ℕ → Bool) (tl : List ℕ) (from to i j : ℕ)
    → type_at tl i ≡ some from
    → type_at tl j ≡ some to
    → exists_at exists tl i j ≡ exists from to
unfolding exists_at
exists_at_lem exists tl from to i j h h' = ap by_from h ∙ ap by_to h'
  where
    by_to : Option ℕ → Bool
    by_to found = elim found [ none ↦ false | some t ↦ exists from t ]

    by_from : Option ℕ → Bool
    by_from found = elim found [
      | none ↦ false
      | some f ↦ elim (type_at tl j) [ none ↦ false | some t ↦ exists f t ]
    ]

-- The entry of two places of the list.
make_table_lem :
    (exists : ℕ → ℕ → Bool) (tl : List ℕ) (from to i j : ℕ)
    → IsFirst tl from (some i)
    → IsFirst tl to (some j)
    → (make_table exists tl i j ≡ exists from to)
      × (can_convert exists tl (some i) (some j) ≡ ok (exists from to))
unfolding can_convert make_table
make_table_lem exists tl from to i j (here, (inside, before)) (here', (inside', before')) =
    (entry, ground (arith, entry))
  where
    at_both : exists_at exists tl i j ≡ exists from to
    at_both = exists_at_lem exists tl from to i j here here'

    entry : make_rows exists tl 0 (length_of tl) (λ i j. false) i j ≡ exists from to
    entry = ground (arith, make_rows_lem exists tl 0 (length_of tl) (λ i j. false) i j, at_both)

-- For an object whose `_typeId` is that of its type, CanCast says whether the compiler converts a
-- pointer to that type into a pointer to the other one, and TypeCast gives what static_cast makes of
-- the pointer then and a null pointer otherwise: the table, built on the first call of CanConvert,
-- answers like the compiler, for every two types of the list.
pub can_cast-exists :
    (exists : ℕ → ℕ → Bool) (static_cast : ℕ → ℕ → ℕ) (tl : List ℕ) (from to i j address : ℕ)
    → index_of tl from ≡ some i
    → index_of tl to ≡ some j
    → (can_cast exists tl to (some (address, index_of tl from)) ≡ ok (exists from to))
      × (type_cast exists tl static_cast to (some (address, index_of tl from))
          ≡ ok (if exists from to then some (static_cast to address) else none))
unfolding can_cast type_cast
can_cast-exists exists static_cast tl from to i j address at_i at_j =
    let answer =
      make_table_lem exists tl from to i j (rw at_i at (index_of-IsFirst tl from))
        (rw at_j at (index_of-IsFirst tl to)) in
    (rw (at_i, at_j) answer.1, rw (at_i, at_j, answer.1) refl)
