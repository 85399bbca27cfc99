-- ===== src/Prelude/Sets.antt =====
-- `std::set` of numbers and `std::map` with number keys, as lists in the order of their iteration.
use Prim.Native.Nat.{ℕ, ◌+◌}
use mathlib.Core.Path.{◌≡◌, refl}
use mathlib.Core.Bool.{Bool, false, not, ◌&&◌, ◌||◌, true}
use mathlib.Core.Option.{Option, none, some}
use mathlib.Core.List.{List, [], ◌∷◌}
use native.Mathlib.Omega.{arith}
use native.Mathlib.Decide.{dec_lt, ℕ_discrete}
use cplus_server_core_model.Prelude.Lists.{length}
use cplus_server_core_model.Prelude.Tests.{ltb, ◌==◌, if◌then◌else◌}

abbrev pub member : ℕ → List ℕ → Bool
member n [] = false
member n (m ∷ ms) = n == m || member n ms

unfoldable pub insert : ℕ → List ℕ → List ℕ
insert n [] = n ∷ []
insert n (m ∷ ms) =
    let rest = insert n ms in if ltb n m then n ∷ m ∷ ms else if n == m then m ∷ ms else m ∷ rest

unfoldable pub erase : ℕ → List ℕ → List ℕ
erase n [] = []
erase n (m ∷ ms) = let rest = erase n ms in if n == m then rest else m ∷ rest

pub member-insert : (x n : ℕ) (ms : List ℕ) → member x (insert n ms) ≡ (x == n || member x ms)
unfolding insert
member-insert x n [] = refl
member-insert x n (m ∷ ms) = ground (arith, member-insert x n ms)

pub member-erase : (x n : ℕ) (ms : List ℕ) → member x (erase n ms) ≡ (not (x == n) && member x ms)
unfolding erase
member-erase x n [] = ground arith
member-erase x n (m ∷ ms) = ground (arith, member-erase x n ms)

-- Each element stands once.
abbrev pub AreApart : List ℕ → Type 0
AreApart [] = Unit
AreApart (m ∷ ms) = (member m ms ≡ false) × AreApart ms

pub insert-AreApart :
    (n : ℕ) (ms : List ℕ) → member n ms ≡ false → AreApart ms → AreApart (insert n ms)
unfolding insert
insert-AreApart n [] h a = (refl, tt)
insert-AreApart n (m ∷ ms) h a =
    let e : (n == m) ≡ false = ground arith in
    let rest : member n ms ≡ false = ground arith in
    let kept : member m (insert n ms) ≡ false = ground (arith, a.0, member-insert m n ms) in
    elim (dec_lt n m) [
      | yes l ↦ let b : ltb n m ≡ true = ground arith in rw b (h, a)
      | no g ↦
          let b : ltb n m ≡ false = ground arith in rw (b, e) (kept, insert-AreApart n ms rest a.1)
    ]

pub erase-AreApart : (n : ℕ) (ms : List ℕ) → AreApart ms → AreApart (erase n ms)
unfolding erase
erase-AreApart n [] a = tt
erase-AreApart n (m ∷ ms) a =
    let kept : member m (erase n ms) ≡ false = ground (arith, a.0, member-erase m n ms) in
    elim (ℕ_discrete n m) [
      | yes e ↦ let b : (n == m) ≡ true = ground arith in rw b (erase-AreApart n ms a.1)
      | no ne ↦ let b : (n == m) ≡ false = ground arith in rw b (kept, erase-AreApart n ms a.1)
    ]

pub length-insert :
    (n : ℕ) (ms : List ℕ) → member n ms ≡ false → length (insert n ms) ≡ length ms + 1
unfolding insert
length-insert n [] h = refl
length-insert n (m ∷ ms) h = ground (arith, length-insert n ms)

pub erase_absent : (n : ℕ) (ms : List ℕ) → member n ms ≡ false → erase n ms ≡ ms
unfolding erase
erase_absent n [] h = refl
erase_absent n (m ∷ ms) h = ground (arith, erase_absent n ms)

pub length-erase :
    (n : ℕ) (ms : List ℕ) → member n ms ≡ true → AreApart ms → length (erase n ms) + 1 ≡ length ms
unfolding erase
length-erase n [] h a = ground arith
length-erase n (m ∷ ms) h a = ground (arith, length-erase n ms, erase_absent n ms)

module _ {ℓ} {A : Type ℓ} where
  abbrev pub find : ℕ → List (ℕ × A) → Option A
  find key [] = none
  find key ((k, a) ∷ entries) = if k == key then some a else find key entries

  -- `map[key] = a`.
  unfoldable pub store : ℕ → A → List (ℕ × A) → List (ℕ × A)
  store key a [] = (key, a) ∷ []
  store key a ((k, b) ∷ entries) =
      let rest = store key a entries in
      if ltb key k
      then (key, a) ∷ (k, b) ∷ entries
      else if k == key
      then (k, a) ∷ entries
      else (k, b) ∷ rest

  unfoldable pub erase_key : ℕ → List (ℕ × A) → List (ℕ × A)
  erase_key key [] = []
  erase_key key ((k, b) ∷ entries) =
      let rest = erase_key key entries in if k == key then rest else (k, b) ∷ rest

  pub find-store :
      (j key : ℕ) (a : A) (entries : List (ℕ × A))
      → find j (store key a entries) ≡ (if key == j then some a else find j entries)
  unfolding store
  find-store j key a [] = refl
  find-store j key a ((k, b) ∷ entries) = ground (arith, find-store j key a entries)

  pub find-erase_key :
      (j key : ℕ) (entries : List (ℕ × A))
      → find j (erase_key key entries) ≡ (if key == j then none else find j entries)
  unfolding erase_key
  find-erase_key j key [] = ground arith
  find-erase_key j key ((k, b) ∷ entries) = ground (arith, find-erase_key j key entries)
