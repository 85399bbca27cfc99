-- ===== src/Prelude/Indexed.antt =====
-- Entries of a list by their index, where some are assigned.
use Prim.Native.Nat.{ℕ, zero, suc, ◌<◌}
use mathlib.Core.Path.{◌≡◌, refl, ap, ◌∙◌}
use mathlib.Core.Option.{none, some}
use mathlib.Core.List.{List, [], ◌∷◌}
use native.Mathlib.Omega.{arith}
use cplus_server_core_model.Prelude.Tests.{ltb, ◌==◌, if◌then◌else◌}
use cplus_server_core_model.Prelude.Lists.{at, assign, replicate, length}

module _ {ℓ} {A : Type ℓ} where
  pub at-assign :
      (i n : ℕ) (a : A) (xs : List A)
      → n < length xs
      → at i (assign n a xs) ≡ (if i == n then some a else at i xs)
  at-assign i n a [] h = ground arith
  at-assign zero zero a (x ∷ xs) h = refl
  at-assign zero (suc n) a (x ∷ xs) h = ground arith
  at-assign (suc i) zero a (x ∷ xs) h = ground arith
  at-assign (suc i) (suc n) a (x ∷ xs) h = ground (arith, at-assign i n a xs)

  pub length-assign : (n : ℕ) (a : A) (xs : List A) → length (assign n a xs) ≡ length xs
  length-assign n a [] = refl
  length-assign zero a (x ∷ xs) = refl
  length-assign (suc n) a (x ∷ xs) = ap suc (length-assign n a xs)

  pub at-replicate : (i n : ℕ) (a : A) → at i (replicate n a) ≡ (if ltb i n then some a else none)
  at-replicate i zero a = ground arith
  at-replicate zero (suc n) a = ground arith
  at-replicate (suc i) (suc n) a = ground (arith, at-replicate i n a)

  -- A table of this many entries, by their indices.
  abbrev pub IsTable : ℕ → (ℕ → A) → List A → Type ℓ
  IsTable entries f xs =
      (length xs ≡ entries) × ((i : ℕ) → at i xs ≡ (if ltb i entries then some (f i) else none))

  pub assign-IsTable :
      (entries n : ℕ) (a : A) (f : ℕ → A) (xs : List A)
      → n < entries
      → IsTable entries f xs
      → IsTable entries (λ i. if i == n then a else f i) (assign n a xs)
  assign-IsTable entries n a f xs h t =
      let e = t.0 in (length-assign n a xs ∙ e, λ i. ground (arith, at-assign i n a xs, t.1 i))
