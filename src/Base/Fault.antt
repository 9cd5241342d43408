-- ===== src/Base/Fault.antt =====
-- What C code that may stop abnormally returns: `none` is a failed assertion or undefined
-- behaviour (a null dereference, a signed overflow), after which no state is described.
use Prim.Native.Nat.{ℕ, ◌-◌, ◌^◌}
use mathlib.Core.Bool.{Bool, true, false}
use mathlib.Core.Option.{Option, none, some}

infixl 5 ◌>>=◌ ◌>>◌
abbrev pub ◌>>=◌ {ℓ κ} : {A : Type ℓ} {B : Type κ} → Option A → (A → Option B) → Option B
none >>= f = none
some a >>= f = f a

abbrev pub ◌>>◌ {ℓ} : {B : Type ℓ} → Option (Unit {0}) → Option B → Option B
m >> k = m >>= λ _. k

-- `assert(b)`
abbrev pub guard : Bool → Option (Unit {0})
guard true = some tt
guard false = none

-- `INT_MAX`
abbrev pub int_max : ℕ
int_max = 2 ^ 31 - 1

-- What a call that may also end the process comes to: it returns, `exit(status)` is called, or it
-- stops abnormally.
pub data Outcome {ℓ} (A : Type ℓ) : Type ℓ where
  ok : A → Outcome A
  exit : ℕ → Outcome A
  fault : Outcome A

abbrev pub lift {ℓ} : {A : Type ℓ} → Option A → Outcome A
lift none = fault
lift (some a) = ok a

abbrev pub bind {ℓ κ} : {A : Type ℓ} {B : Type κ} → Outcome A → (A → Outcome B) → Outcome B
bind (ok a) f = f a
bind (exit s) f = exit s
bind fault f = fault
