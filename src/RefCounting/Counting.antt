-- ===== src/RefCounting/Counting.antt =====
-- The count of an object against the variables that name it.
use cplus_server_core_model.RefCounting.{Store, make, pointer, set, release, ℕ, let_go}
use cplus_server_core_model.Prelude.{
  ℕ, arith, Option, List, ◌≡◌, some, ◌∷◌, length, ◌≤◌, ◌<◌, assign, suc, ap, none, if◌then◌else◌,
  ◌+◌, ◌^◌, [], ◌==◌, zero, refl,
}

abbrev pub is_it : ℕ → Option ℕ → ℕ
is_it o none = 0
is_it o (some p) = if p == o then 1 else 0

-- How many variables name the object.
abbrev pub holders : ℕ → List (Option ℕ) → ℕ
holders o [] = 0
holders o (p ∷ ps) = is_it o p + holders o ps

-- Each count is the number of variables that name the object; an object that was deleted was
-- deleted once, and no variable names it.
pub record IsCounted (s : Store) : Type 0 where
  pub counts : (o : ℕ) → s.ref_count o ≡ holders o s.handles
  pub small : length s.handles < 2 ^ 31
  pub once : (o : ℕ) → s.deletions o ≤ 1
  pub gone : (o : ℕ) → 0 < s.deletions o → holders o s.handles ≡ 0

pub make-IsCounted : IsCounted make
make-IsCounted = record {
  counts = λ o. refl;
  small = omega arith;
  once = λ o. omega arith;
  gone = λ o h. refl;
}

is_it-le : (o : ℕ) (p : Option ℕ) → is_it o p ≤ 1
is_it-le o none = omega arith
is_it-le o (some p) = ground arith

pub holders-le : (o : ℕ) (ps : List (Option ℕ)) → holders o ps ≤ length ps
holders-le o [] = omega arith
holders-le o (p ∷ ps) = omega (arith, is_it-le o p, holders-le o ps)

-- The object of one variable changes.
pub holders-assign :
    (o i : ℕ) (p : Option ℕ) (ps : List (Option ℕ))
    → i < length ps
    → holders o (assign i p ps) + is_it o (pointer i ps) ≡ holders o ps + is_it o p
holders-assign o i p [] h = absurd (omega arith)
holders-assign o zero p (q ∷ ps) h = omega arith
holders-assign o (suc i) p (q ∷ ps) h = omega (arith, holders-assign o i p ps (omega arith))

pub length-assign :
    (i : ℕ) (p : Option ℕ) (ps : List (Option ℕ)) → length (assign i p ps) ≡ length ps
length-assign i p [] = refl
length-assign zero p (q ∷ ps) = refl
length-assign (suc i) p (q ∷ ps) = ap suc (length-assign i p ps)

pointer-place : (i : ℕ) (ps : List (Option ℕ)) (o : ℕ) → pointer i ps ≡ some o → i < length ps
pointer-place i [] o e = cc
pointer-place zero (q ∷ ps) o e = omega arith
pointer-place (suc i) (q ∷ ps) o e = omega (arith, pointer-place i ps o e)

pub pointer-holders :
    (i : ℕ) (ps : List (Option ℕ)) (o : ℕ) → pointer i ps ≡ some o → 0 < holders o ps
pointer-holders i [] o e = cc
pointer-holders zero (q ∷ ps) o e = ground (arith, ap (is_it o) e)
pointer-holders (suc i) (q ∷ ps) o e = omega (arith, pointer-holders i ps o e)

let_go-IsCounted :
    (i : ℕ) (p : Option ℕ) (s : Store)
    → pointer i s.handles ≡ p
    → IsCounted s
    → IsCounted (let_go i p s)
unfolding let_go
let_go-IsCounted i none s e v = v
let_go-IsCounted i (some o) s e v =
    let place = pointer-place i s.handles o e in
    let some_left = pointer-holders i s.handles o e in
    let many = holders-le o s.handles in
    record {
      counts = λ q. ground (
        arith,
        v.counts q,
        v.counts o,
        v.small,
        holders-assign q i none s.handles place,
        ap (is_it q) e,
        holders-le q s.handles,
      );
      small = ground (arith, v.small, length-assign i none s.handles);
      once = λ q. ground (arith, v.once q, v.counts o, v.gone q, v.small);
      gone = λ q. ground (
        arith,
        v.counts o,
        v.counts q,
        v.gone q,
        v.small,
        holders-assign q i none s.handles place,
        ap (is_it q) e,
      );
    }

pub release-IsCounted : (i : ℕ) (s : Store) → IsCounted s → IsCounted (release i s)
unfolding release
release-IsCounted i s v = let_go-IsCounted i (pointer i s.handles) s refl v

-- The object may be given another variable: it has none, or was never deleted.
abbrev pub IsLive : Option ℕ → Store → Type 0
IsLive none s = Unit
IsLive (some o) s = s.deletions o ≡ 0

pub set-IsCounted :
    (i : ℕ) (p : Option ℕ) (s : Store)
    → IsCounted s
    → i < length s.handles
    → pointer i s.handles ≡ none
    → IsLive p s
    → IsCounted (set i p s)
unfolding set
set-IsCounted i none s v h e l = record {
  counts = λ q. omega (arith, v.counts q, holders-assign q i none s.handles h, ap (is_it q) e);
  small = omega (arith, v.small, length-assign i none s.handles);
  once = v.once;
  gone = λ q d. omega (arith, v.gone q d, holders-assign q i none s.handles h, ap (is_it q) e);
}
set-IsCounted i (some o) s v h e l = record {
  counts = λ q. ground (
    arith,
    v.counts q,
    v.counts o,
    v.small,
    holders-assign q i (some o) s.handles h,
    ap (is_it q) e,
    holders-le q s.handles,
    holders-le o s.handles,
  );
  small = omega (arith, v.small, length-assign i (some o) s.handles);
  once = v.once;
  gone = λ q. ground (arith, v.gone q, holders-assign q i (some o) s.handles h, ap (is_it q) e);
}
