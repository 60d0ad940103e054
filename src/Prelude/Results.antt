-- ===== src/Prelude/Results.antt =====
-- The exceptions that the modelled code throws, and the results of code that may throw.
use mathlib.Core.Bool.{Bool, true, false}

pub data Exception : Type 0 where
  al_backend al_context al_lowlevel al_plugin runtime_error out_of_range : Exception

-- What code that may throw comes to.
pub data Result {κ} (A : Type κ) : Type κ where
  ok : A → Result A
  throw : Exception → Result A

-- `if (test) throw e;`
abbrev pub throw_if : Bool → Exception → Result (Unit {0})
throw_if true e = throw e
throw_if false e = ok tt

infixl 5 ◌>>=◌ ◌>>◌
-- A later statement runs on the value of an earlier one, unless that has thrown.
abbrev pub ◌>>=◌ {κ ℓ} : {A : Type κ} {B : Type ℓ} (r : Result A) (next : A → Result B) → Result B
◌>>=◌ (throw e) next = throw e
◌>>=◌ (ok value) next = next value

abbrev pub ◌>>◌ {κ} : {B : Type κ} (r : Result (Unit {0})) (next : Result B) → Result B
◌>>◌ (throw e) next = throw e
◌>>◌ (ok done) next = next
