-- ===== src/Lowlevel/Outcome.antt =====
-- What a call of the low-level code comes to: it returns, throws, or follows a pointer that is NULL or
-- freed, behind which nothing is defined.
use imas_core.Prelude.{Exception, Result, ok, throw}

pub data Outcome {ℓ} (A : Type ℓ) : Type ℓ where
  returns : A → Outcome A
  throws : Exception → Outcome A
  crashes : Outcome A

abbrev pub outcome {ℓ} : {A : Type ℓ} → Result A → Outcome A
outcome (ok a) = returns a
outcome (throw e) = throws e

infixl 5 ◌>>=◌ ◌>>◌
abbrev pub ◌>>=◌ {ℓ κ} : {A : Type ℓ} {B : Type κ} → Outcome A → (A → Outcome B) → Outcome B
(returns a) >>= next = next a
(throws e) >>= next = throws e
crashes >>= next = crashes

abbrev pub ◌>>◌ {κ} : {B : Type κ} → Outcome (Unit {0}) → Outcome B → Outcome B
(returns u) >> next = next
(throws e) >> next = throws e
crashes >> next = crashes
