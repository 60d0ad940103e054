-- ===== src/Lowlevel/Types.antt =====
-- The state of src/al_lowlevel.cpp, the interface of a backend (include/al_backend.h), and the monad of the
-- C entry points. A context and a backend live at an address, which is the uid of the context, or of the
-- data entry that the backend was made for; NULL is 0. Memory that is freed is not used again.
use imas_core.Prelude.{
  ℕ, Bool, List, [], ◌∷◌, Option, none, some, Text, ◌==◌, if◌then◌else◌, Exception, Result,
}
use imas_core.Prelude.Int.{ℤ}
use imas_core.Context.Entry.{DataEntryContext}
use imas_core.Context.Operation.{OperationContext}
use imas_core.Context.Arraystruct.{ArraystructContext}
use imas_core.Lowlevel.Outcome.{Outcome, outcome}
use imas_core.Lowlevel.Store.{Store}
use imas_core.Lowlevel.Values.{Numbers, Element}

module _ (N : Numbers) where
  pub data Context : Type 0 where
    pulse : DataEntryContext → Context
    operation : OperationContext N.Double → Context
    arraystruct : ArraystructContext → Context

  -- What `readData` hands back, where there are data.
  pub record Data : Type 0 where
    pub elements : List (Element N)
    pub datatype : ℤ
    pub dim : ℕ
    pub size : List ℕ

  -- The virtual methods of class Backend, on a world of files that they change; each returns or throws.
  pub record Backend {ω} (W : Type ω) : Type ω where
    pub supports_time_range_operation : Bool
    pub open_pulse : DataEntryContext → ℤ → W → Result (Unit {0}) × W
    pub close_pulse : DataEntryContext → ℤ → W → Result (Unit {0}) × W
    pub begin_action : OperationContext N.Double → W → Result (Unit {0}) × W
    pub end_action : Context → W → Result (Unit {0}) × W
    pub begin_arraystruct_action : ArraystructContext → W → Result ℤ × W
    pub write_data :
        Context
        → Text
        → Text
        → Option (List (Element N))
        → ℤ
        → ℕ
        → Option (List ℕ)
        → W
        → Result (Unit {0}) × W
    pub read_data : Context → Text → Text → ℤ → ℕ → W → Result (Option Data) × W
    pub delete_data : OperationContext N.Double → Text → W → Result (Unit {0}) × W
    pub get_version : Option DataEntryContext → W → Result (ℤ × ℤ) × W

  -- `sid` is Context::SID, `contexts` and `backends` are what is live at which address.
  pub record Api {ω} (W : Type ω) : Type ω where
    pub sid : ℕ
    pub store : Store
    pub contexts : List (ℕ × Context)
    pub backends : List (ℕ × ℕ)
    pub world : W

-- Memory by addresses.
module _ {ℓ} {V : Type ℓ} where
  unfoldable pub at_address : ℕ → List (ℕ × V) → Option V
  at_address a [] = none
  at_address a ((b, v) ∷ m) = if b == a then some v else at_address a m

  unfoldable pub free : ℕ → List (ℕ × V) → List (ℕ × V)
  free a [] = []
  free a ((b, v) ∷ m) = let rest = free a m in if b == a then rest else (b, v) ∷ rest

-- An entry point goes on with the state, whichever way it ends.
abbrev pub M {ω ℓ} : Numbers → Type ω → Type ℓ → Type (ω ⊔ ℓ)
M N W A = Api N W → Outcome A × Api N W

module _ {ω} {N : Numbers} {W : Type ω} where
  abbrev pub continue {ℓ κ} :
      {A : Type ℓ} {B : Type κ} → Outcome A × Api N W → (A → M N W B) → Outcome B × Api N W
  continue (Outcome.returns a, s) f = f a s
  continue (Outcome.throws e, s) f = (Outcome.throws e, s)
  continue (Outcome.crashes, s) f = (Outcome.crashes, s)

  infixl 5 ◌>>=◌ ◌>>◌
  abbrev pub ◌>>=◌ {ℓ κ} : {A : Type ℓ} {B : Type κ} → M N W A → (A → M N W B) → M N W B
  ◌>>=◌ m f s = continue (m s) f

  abbrev pub ◌>>◌ {ℓ κ} : {A : Type ℓ} {B : Type κ} → M N W A → M N W B → M N W B
  ◌>>◌ m k s = continue (m s) (λ a. k)

  abbrev pub return {ℓ} : {A : Type ℓ} → A → M N W A
  return a s = (Outcome.returns a, s)

  abbrev pub lift {ℓ} : {A : Type ℓ} → Outcome A → M N W A
  lift o s = (o, s)

  abbrev pub raise {ℓ} : {A : Type ℓ} → Exception → M N W A
  raise e s = (Outcome.throws e, s)

  abbrev pub get : M N W (Api N W)
  get s = (Outcome.returns s, s)

  abbrev pub put : Api N W → M N W (Unit {0})
  put t s = (Outcome.returns tt, t)

  -- A call of a backend, which changes the world only.
  abbrev pub in_world {ℓ} : {A : Type ℓ} → (W → Result A × W) → M N W A
  in_world f s = let (r, after) = f s.world in (outcome r, record s { world = after })

  -- Following a pointer.
  abbrev pub deref {ℓ} : {A : Type ℓ} → Option A → M N W A
  deref none s = (Outcome.crashes, s)
  deref (some a) s = (Outcome.returns a, s)
