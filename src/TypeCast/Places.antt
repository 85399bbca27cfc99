-- ===== src/TypeCast/Places.antt =====
-- IndexOf finds the first place of a type, and TypeAt has the type there.
use cplus_server_core_model.TypeCast.{length_of, type_at, index_of, next, List, ℕ}
use cplus_server_core_model.Prelude.{
  [], List, ℕ, Option, ◌≢◌, some, ◌∷◌, ◌≡◌, suc, arith, ◌<◌, ℕ_discrete, ◌+◌, ◌==◌, none, true,
  zero, false, refl,
}

-- Where a type stands first in a list, if it does.
abbrev pub IsFirst : List ℕ → ℕ → Option ℕ → Type 0
IsFirst ts t none = (i : ℕ) → type_at ts i ≢ some t
IsFirst ts t (some i) =
    (type_at ts i ≡ some t) × ((i < length_of ts) × ((j : ℕ) → j < i → type_at ts j ≢ some t))

IsFirst-next :
    (head : ℕ) (tail : List ℕ) (t : ℕ) (place : Option ℕ)
    → head ≢ t
    → IsFirst tail t place
    → IsFirst (head ∷ tail) t (next place)
unfolding type_at length_of
IsFirst-next head tail t none ne f = none_there
  where
    none_there : (i : ℕ) → type_at (head ∷ tail) i ≢ some t
    none_there zero = λ e. ne (cc)
    none_there (suc i) = f i
IsFirst-next head tail t (some i) ne (here, (inside, before)) =
    (rw one here, (omega arith, none_before))
  where
    one : i + 1 ≡ suc i
    one = omega arith

    none_before : (j : ℕ) → j < i + 1 → type_at (head ∷ tail) j ≢ some t
    none_before zero h = λ e. ne (cc)
    none_before (suc j) h = before j (omega arith)

-- IndexOf of a type gives a place at which TypeAt has that type, inside the list and behind no
-- other such place; it gives -1 only for a type that TypeAt has nowhere.
pub index_of-IsFirst : (ts : List ℕ) (t : ℕ) → IsFirst ts t (index_of ts t)
unfolding index_of type_at length_of
index_of-IsFirst [] t = nowhere
  where
    nowhere : (i : ℕ) → type_at [] i ≢ some t
    nowhere i = ground arith
index_of-IsFirst (head ∷ tail) t = elim (ℕ_discrete head t) [
  | yes e ↦
      let b : (head == t) ≡ true = ground arith in
      rw b (rw e refl, (omega arith, λ j h. absurd (omega arith)))
  | no ne ↦
      let b : (head == t) ≡ false = ground arith in
      rw b (IsFirst-next head tail t (index_of tail t) ne (index_of-IsFirst tail t))
]
