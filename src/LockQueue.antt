-- ===== src/LockQueue.antt =====
-- ServerCore/LockQueue.h, and ServerCore/GlobalQueue.{h,cpp}, which is one: a queue under a lock.
-- Each method holds the write lock from its first line on, so that it is one step; PopAll takes
-- the lock again in Pop, which Lock allows the same thread. An item is a reference: `none` is
-- null, as `T()` is.
use cplus_server_core_model.Prelude.{◌≡◌, refl, ap, Option, none, some, List, [], ◌∷◌, ◌++◌, map}

module _ {ℓ} {A : Type ℓ} where
  unfoldable pub push : Option A → List (Option A) → List (Option A)
  push item items = items ++ item ∷ []

  unfoldable pub pop : List (Option A) → Option A × List (Option A)
  pop [] = (none, [])
  pop (item ∷ items) = (item, items)

  -- The `while` goes on as long as Pop gives a reference that is not null: the items, and the
  -- rest.
  unfoldable pub pop_all : List (Option A) → List A × List (Option A)
  pop_all [] = ([], [])
  pop_all (none ∷ items) = ([], items)
  pop_all (some a ∷ items) = let (as', rest) = pop_all items in (a ∷ as', rest)

  unfoldable pub clear : List (Option A) → List (Option A)
  clear items = []

  -- With no null reference in the queue PopAll takes everything, oldest first.
  pub pop_all-filled : (xs : List A) → pop_all (map some xs) ≡ (xs, [])
  unfolding pop_all
  pop_all-filled [] = refl
  pop_all-filled (x ∷ xs) = ap (λ r. (x ∷ r.0, r.1)) (pop_all-filled xs)

  -- A null reference ends PopAll: it takes what stands in front, and drops the null.
  pop_all-null :
      (xs : List A) (rest : List (Option A)) → pop_all (map some xs ++ none ∷ rest) ≡ (xs, rest)
  unfolding pop_all
  pop_all-null [] rest = refl
  pop_all-null (x ∷ xs) rest = ap (λ r. (x ∷ r.0, r.1)) (pop_all-null xs rest)
