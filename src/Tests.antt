-- ===== src/Tests.antt =====
-- Runs of the program's parts on small inputs, and the theorems at those inputs.
pub mod Rings
pub mod Maps
pub mod Pools
pub mod Programs
pub mod Bytes
pub mod Arenas
pub mod Machines
pub mod Texts
pub mod Echoes
pub mod Clients
pub mod Servers
use mathlib.Core.Path.{subst}
use c_async_await.Base.{◌≡◌, Option, none, some, arith, Outcome, ok, exit, fault}

module _ {A : Type 0} where
  -- The value of a run that does not fail.
  abbrev pub value_or : A → Option A → A
  value_or a none = a
  value_or a (some b) = b

  -- What a theorem says of the result of a run, said of the result that the run is known to have.
  pub landed :
      {o : Option A} {a : A} (P : A → Type 0) → o ≡ some a → (b : A) × (o ≡ some b) × P b → P a
  landed {o} {a} P e (b, e', p) = let same : b ≡ a = ground arith in subst P same p

  -- The same for a run that may end the process.
  abbrev pub ok_or : A → Outcome A → A
  ok_or a (ok b) = b
  ok_or a (exit n) = a
  ok_or a fault = a

  pub landed_ok :
      {o : Outcome A} {a : A} (P : A → Type 0) → o ≡ ok a → (b : A) × (o ≡ ok b) × P b → P a
  landed_ok {o} {a} P e (b, e', p) = let same : b ≡ a = ground arith in subst P same p
