-- ===== src/Prelude/Endings.antt =====
-- How a call of the program ends. `CRASH` and `ASSERT_CRASH` of ServerCore/CoreMacro.h write
-- through a null pointer, which ends the process: that is `crash`. An access outside an array,
-- which the language leaves undefined, is `stray`.
use mathlib.Core.Path.{◌≡◌, subst}
use mathlib.Core.Option.{Option, none, some}
use mathlib.Core.Bool.{Bool, true, false}

pub data Cause : Type 0 where
  assert_crash : Cause
  lock_timeout : Cause
  invalid_unlock_order : Cause
  multiple_unlock : Cause
  invalid_unlock : Cause
  deadlock_detected : Cause
  buffer_overrun : Cause
  handle_invalid : Cause

pub data Outcome {ℓ} (A : Type ℓ) : Type ℓ where
  ok : A → Outcome A
  crash : Cause → Outcome A
  stray : Outcome A

infixl 5 ◌>>=◌ ◌>>◌
abbrev pub ◌>>=◌ {ℓ κ} : {A : Type ℓ} {B : Type κ} → Outcome A → (A → Outcome B) → Outcome B
ok a >>= f = f a
crash c >>= f = crash c
stray >>= f = stray

abbrev pub ◌>>◌ {ℓ} : {B : Type ℓ} → Outcome (Unit {0}) → Outcome B → Outcome B
m >> k = m >>= λ _. k

-- `if (!(b)) CRASH(c)`.
abbrev pub guard : Bool → Cause → Outcome (Unit {0})
guard true c = ok tt
guard false c = crash c

-- `ASSERT_CRASH(b)`.
abbrev pub assert_that : Bool → Outcome (Unit {0})
assert_that b = guard b assert_crash

-- A call that ends does so in a state of this kind.
abbrev pub Ends {ℓ κ} : {A : Type ℓ} → (A → Type κ) → Outcome A → Type κ
Ends P (ok a) = P a
Ends P (crash c) = Unit
Ends P stray = Unit

pub Ends-always {ℓ κ ν} :
    {A : Type ℓ} {B : Type κ} (Q : B → Type ν) (f : A → Outcome B)
    → ((a : A) → Ends Q (f a))
    → (m : Outcome A) → Ends Q (m >>= f)
Ends-always Q f h (ok a) = h a
Ends-always Q f h (crash c) = tt
Ends-always Q f h stray = tt

pub Ends-any {ℓ κ} : {A : Type ℓ} (P : A → Type κ) → ((a : A) → P a) → (m : Outcome A) → Ends P m
Ends-any P h (ok a) = h a
Ends-any P h (crash c) = tt
Ends-any P h stray = tt

pub Ends-then {ℓ κ μ ν} :
    {A : Type ℓ} {B : Type κ} {P : A → Type μ} (Q : B → Type ν) (f : A → Outcome B)
    → ((a : A) → P a → Ends Q (f a))
    → (m : Outcome A) → Ends P m
    → Ends Q (m >>= f)
Ends-then Q f h (ok a) p = h a p
Ends-then Q f h (crash c) p = tt
Ends-then Q f h stray p = tt

-- What holds wherever a call may end holds of its result.
pub Ends-ok {ℓ κ} :
    {A : Type ℓ} (P : A → Type κ) {m : Outcome A} {a : A} → m ≡ ok a → Ends P m → P a
Ends-ok P h ends = subst (Ends P) h ends

-- The same for a call whose answers may run out.
abbrev pub Finishes {ℓ κ} : {A : Type ℓ} → (A → Type κ) → Option (Outcome A) → Type κ
Finishes P none = Unit
Finishes P (some m) = Ends P m

pub Finishes-ok {ℓ κ} :
    {A : Type ℓ} (P : A → Type κ) {m : Option (Outcome A)} {a : A}
    → m ≡ some (ok a)
    → Finishes P m
    → P a
Finishes-ok P h ends = subst (Finishes P) h ends

pub Finishes-then {ℓ κ μ} :
    {A : Type ℓ} {P : A → Type κ} {Q : A → Type μ}
    → ((a : A) → P a → Q a)
    → (m : Option (Outcome A)) → Finishes P m
    → Finishes Q m
Finishes-then h none p = tt
Finishes-then h (some (ok a)) p = h a p
Finishes-then h (some (crash c)) p = tt
Finishes-then h (some stray) p = tt
