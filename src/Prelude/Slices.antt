-- ===== src/Prelude/Slices.antt =====
-- Parts of a list by position, and writes of a run of values at a position.
use Prim.Native.Nat.{ℕ, zero, suc, ◌+◌, ◌-◌, ◌≤◌}
use mathlib.Core.Path.{◌≡◌, refl, ap}
use mathlib.Core.List.{List, [], ◌∷◌, ◌++◌}
use native.Mathlib.Omega.{arith}
use cplus_server_core_model.Prelude.Lists.{length, take, drop, length-take, length-drop}

module _ {ℓ} {A : Type ℓ} where
  -- `n` values from position `o` on.
  abbrev pub slice : ℕ → ℕ → List A → List A
  slice o n xs = take n (drop o xs)

  -- The values `bs` written at position `o`; what would stand past the end is lost.
  pub overwrite : List A → ℕ → List A → List A
  overwrite [] o bs = []
  overwrite (x ∷ xs) zero [] = x ∷ xs
  overwrite (x ∷ xs) zero (b ∷ bs) = b ∷ overwrite xs zero bs
  overwrite (x ∷ xs) (suc o) bs = x ∷ overwrite xs o bs

  pub length-overwrite :
      (xs : List A) (o : ℕ) (bs : List A) → length (overwrite xs o bs) ≡ length xs
  unfolding overwrite
  length-overwrite [] o bs = refl
  length-overwrite (x ∷ xs) zero [] = refl
  length-overwrite (x ∷ xs) zero (b ∷ bs) = ap suc (length-overwrite xs zero bs)
  length-overwrite (x ∷ xs) (suc o) bs = ap suc (length-overwrite xs o bs)

  pub overwrite-nil : (xs : List A) (o : ℕ) → overwrite xs o [] ≡ xs
  unfolding overwrite
  overwrite-nil [] o = refl
  overwrite-nil (x ∷ xs) zero = refl
  overwrite-nil (x ∷ xs) (suc o) = ap (◌∷◌ x) (overwrite-nil xs o)

  pub slice-overwrite_self :
      (xs : List A) (o : ℕ) (bs : List A)
      → o + length bs ≤ length xs
      → slice o (length bs) (overwrite xs o bs) ≡ bs
  unfolding overwrite
  slice-overwrite_self [] zero [] h = refl
  slice-overwrite_self [] (suc o) [] h = refl
  slice-overwrite_self [] o (b ∷ bs) h = absurd (omega arith)
  slice-overwrite_self (x ∷ xs) zero [] h = refl
  slice-overwrite_self (x ∷ xs) zero (b ∷ bs) h =
      ap (◌∷◌ b) (slice-overwrite_self xs zero bs (omega arith))
  slice-overwrite_self (x ∷ xs) (suc o) bs h = slice-overwrite_self xs o bs (omega arith)

  take-overwrite :
      (n : ℕ) (xs : List A) (o : ℕ) (bs : List A) → n ≤ o → take n (overwrite xs o bs) ≡ take n xs
  unfolding overwrite
  take-overwrite zero xs o bs h = refl
  take-overwrite (suc n) [] o bs h = refl
  take-overwrite (suc n) (x ∷ xs) zero bs h = absurd (omega arith)
  take-overwrite (suc n) (x ∷ xs) (suc o) bs h = ap (◌∷◌ x) (take-overwrite n xs o bs (omega arith))

  -- A part that ends before the write is as it was.
  pub slice-overwrite_before :
      (p n : ℕ) (xs : List A) (o : ℕ) (bs : List A)
      → p + n ≤ o
      → slice p n (overwrite xs o bs) ≡ slice p n xs
  unfolding overwrite
  slice-overwrite_before zero n xs o bs h = take-overwrite n xs o bs (omega arith)
  slice-overwrite_before (suc p) n [] o bs h = refl
  slice-overwrite_before (suc p) n (x ∷ xs) zero bs h = absurd (omega arith)
  slice-overwrite_before (suc p) n (x ∷ xs) (suc o) bs h =
      slice-overwrite_before p n xs o bs (omega arith)

  -- A part that starts behind the write is as it was.
  pub drop-overwrite_after :
      (p : ℕ) (xs : List A) (o : ℕ) (bs : List A)
      → o + length bs ≤ p
      → drop p (overwrite xs o bs) ≡ drop p xs
  unfolding overwrite
  drop-overwrite_after p [] o bs h = refl
  drop-overwrite_after zero (x ∷ xs) zero [] h = refl
  drop-overwrite_after zero (x ∷ xs) zero (b ∷ bs) h = absurd (omega arith)
  drop-overwrite_after zero (x ∷ xs) (suc o) bs h = absurd (omega arith)
  drop-overwrite_after (suc p) (x ∷ xs) zero [] h = refl
  drop-overwrite_after (suc p) (x ∷ xs) zero (b ∷ bs) h =
      drop-overwrite_after p xs zero bs (omega arith)
  drop-overwrite_after (suc p) (x ∷ xs) (suc o) bs h = drop-overwrite_after p xs o bs (omega arith)

  pub take-nil : (n : ℕ) → take {A = A} n [] ≡ []
  take-nil zero = refl
  take-nil (suc n) = refl

  drop-nil : (n : ℕ) → drop {A = A} n [] ≡ []
  drop-nil zero = refl
  drop-nil (suc n) = refl

  pub take-append_left : (n : ℕ) (xs ys : List A) → n ≤ length xs → take n (xs ++ ys) ≡ take n xs
  take-append_left zero xs ys h = refl
  take-append_left (suc n) [] ys h = absurd (omega arith)
  take-append_left (suc n) (x ∷ xs) ys h = ap (◌∷◌ x) (take-append_left n xs ys (omega arith))

  pub drop-append_left :
      (n : ℕ) (xs ys : List A) → n ≤ length xs → drop n (xs ++ ys) ≡ drop n xs ++ ys
  drop-append_left zero xs ys h = refl
  drop-append_left (suc n) [] ys h = absurd (omega arith)
  drop-append_left (suc n) (x ∷ xs) ys h = drop-append_left n xs ys (omega arith)

  pub take-length : (xs ys : List A) → take (length xs) (xs ++ ys) ≡ xs
  take-length [] ys = refl
  take-length (x ∷ xs) ys = ap (◌∷◌ x) (take-length xs ys)

  pub drop-length : (xs ys : List A) → drop (length xs) (xs ++ ys) ≡ ys
  drop-length [] ys = refl
  drop-length (x ∷ xs) ys = drop-length xs ys

  pub take-take : (m n : ℕ) (xs : List A) → m ≤ n → take m (take n xs) ≡ take m xs
  take-take zero n xs h = refl
  take-take (suc m) zero xs h = absurd (omega arith)
  take-take (suc m) (suc n) [] h = refl
  take-take (suc m) (suc n) (x ∷ xs) h = ap (◌∷◌ x) (take-take m n xs (omega arith))

  pub drop-drop : (m n : ℕ) (xs : List A) → drop m (drop n xs) ≡ drop (n + m) xs
  drop-drop m zero xs = let e : 0 + m ≡ m = omega arith in rw e
  drop-drop m (suc n) [] = rw (drop-nil (suc n + m), drop-nil m)
  drop-drop m (suc n) (x ∷ xs) =
      let e : suc n + m ≡ suc (n + m) = omega arith in rw e (drop-drop m n xs)

  -- The two halves of a part.
  pub take-add : (m n : ℕ) (xs : List A) → take (m + n) xs ≡ take m xs ++ take n (drop m xs)
  take-add zero n xs = let e : 0 + n ≡ n = omega arith in rw e
  take-add (suc m) zero [] = let e : suc m + 0 ≡ suc m = omega arith in rw e
  take-add (suc m) (suc n) [] = let e : suc m + suc n ≡ suc (m + suc n) = omega arith in rw e
  take-add (suc m) n (x ∷ xs) =
      let e : suc m + n ≡ suc (m + n) = omega arith in rw e (ap (◌∷◌ x) (take-add m n xs))

  pub drop-take : (k n : ℕ) (xs : List A) → drop k (take n xs) ≡ take (n - k) (drop k xs)
  drop-take zero n xs = let e : n - 0 ≡ n = omega arith in rw e
  drop-take (suc k) zero xs = let e : 0 - suc k ≡ 0 = omega arith in rw e
  drop-take (suc k) (suc n) [] = rw (take-nil (suc n - suc k))
  drop-take (suc k) (suc n) (x ∷ xs) =
      let e : suc n - suc k ≡ n - k = omega arith in rw e (drop-take k n xs)

  pub length-slice : (o n : ℕ) (xs : List A) → o + n ≤ length xs → length (slice o n xs) ≡ n
  length-slice o n xs h = omega (arith, length-take n (drop o xs), length-drop o xs)

  -- A part that is written on at its end.
  pub slice-written :
      (xs bs : List A) (r w : ℕ)
      → r ≤ w
      → w + length bs ≤ length xs
      → slice r (w + length bs - r) (overwrite xs w bs) ≡ slice r (w - r) xs ++ bs
  slice-written xs bs r w le fits =
      let e : w + length bs - r ≡ (w - r) + length bs = omega arith in
      let at : r + (w - r) ≡ w = omega arith in
      rw (
        e,
        take-add (w - r) (length bs) (drop r (overwrite xs w bs)),
        drop-drop (w - r) r (overwrite xs w bs),
        at,
        slice-overwrite_self xs w bs fits,
        slice-overwrite_before r (w - r) xs w bs (omega arith),
      )

  -- Two writes, one behind the other, are one.
  pub overwrite-append :
      (xs : List A) (o : ℕ) (bs cs : List A)
      → overwrite (overwrite xs o bs) (o + length bs) cs ≡ overwrite xs o (bs ++ cs)
  unfolding overwrite
  overwrite-append [] o bs cs = refl
  overwrite-append (x ∷ xs) zero [] [] = refl
  overwrite-append (x ∷ xs) zero [] (c ∷ cs) = refl
  overwrite-append (x ∷ xs) zero (b ∷ bs) cs =
      let e : 0 + suc (length bs) ≡ suc (length bs) = omega arith in
      let z : 0 + length bs ≡ length bs = omega arith in
      rw e (ap (◌∷◌ b) (rw z at (overwrite-append xs zero bs cs)))
  overwrite-append (x ∷ xs) (suc o) bs cs =
      let e : suc o + length bs ≡ suc (o + length bs) = omega arith in
      rw e (ap (◌∷◌ x) (overwrite-append xs o bs cs))
