-- ===== src/Prelude/Dicts.antt =====
-- `std::unordered_map<std::string, V>` as an association list with distinct keys.
use mathlib.Core.Path.{◌≡◌, refl}
use mathlib.Core.List.{List, [], ◌∷◌}
use mathlib.Core.Option.{Option, none, some}
use native.Mathlib.Omega.{arith}
use mathlib.Core.Logic.{inl, inr}
use imas_core.Prelude.Tests.{if◌then◌else◌, Bool-cases}
use imas_core.Prelude.Texts.{Text, text_eq, text_eq_iff}

abbrev pub Dict {ℓ} : Type ℓ → Type ℓ
Dict V = List (Text × V)

module _ {ℓ} {V : Type ℓ} where
  -- `find(k)`; `none` is `end()`.
  unfoldable pub lookup : Text → Dict V → Option V
  lookup k [] = none
  lookup k ((j, v) ∷ m) = if text_eq j k then some v else lookup k m

  -- `m[k] = v`.
  unfoldable pub assign : Text → V → Dict V → Dict V
  assign k v [] = (k, v) ∷ []
  assign k v ((j, w) ∷ m) = if text_eq j k then (j, v) ∷ m else (j, w) ∷ assign k v m

  -- `erase(k)`.
  unfoldable pub erase : Text → Dict V → Dict V
  erase k [] = []
  erase k ((j, w) ∷ m) = if text_eq j k then m else (j, w) ∷ erase k m

  pub lookup-assign :
      (k j : Text) (v : V) (m : Dict V)
      → lookup j (assign k v m) ≡ (if text_eq k j then some v else lookup j m)
  unfolding lookup assign
  lookup-assign k j v [] = refl
  lookup-assign k j v ((i, w) ∷ m) =
      ground (arith, text_eq_iff k j, text_eq_iff i k, text_eq_iff i j, lookup-assign k j v m)

-- The value at `k`, or `d` where `k` is missing.
abbrev pub get_or_else {ℓ} : {V : Type ℓ} → Option V → V → V
get_or_else none d = d
get_or_else (some v) d = v

module _ {ℓ} {V : Type ℓ} where
  -- No key stands twice.
  abbrev pub Distinct : Dict V → Type ℓ
  Distinct [] = Unit
  Distinct ((k, v) ∷ m) = (lookup k m ≡ none) × Distinct m

  pub lookup-erase :
      (k j : Text) (m : Dict V)
      → Distinct m
      → lookup j (erase k m) ≡ (if text_eq k j then none else lookup j m)
  unfolding lookup erase
  lookup-erase k j [] d = ground (arith)
  lookup-erase k j ((i, w) ∷ m) d =
      ground (arith, d.0, text_eq_iff k j, text_eq_iff i k, text_eq_iff i j, lookup-erase k j m d.1)

  pub assign-Distinct : (k : Text) (v : V) (m : Dict V) → Distinct m → Distinct (assign k v m)
  unfolding lookup assign
  assign-Distinct k v [] d = (refl, tt)
  assign-Distinct k v ((i, w) ∷ m) d = elim (Bool-cases (text_eq i k)) [
    | inl e ↦ rw e d
    | inr e ↦ rw e (
      ground (arith, d.0, e, text_eq_iff i k, text_eq_iff k i, lookup-assign k i v m),
      assign-Distinct k v m d.1,
    )
  ]

  pub erase-Distinct : (k : Text) (m : Dict V) → Distinct m → Distinct (erase k m)
  unfolding lookup erase
  erase-Distinct k [] d = tt
  erase-Distinct k ((i, w) ∷ m) d = elim (Bool-cases (text_eq i k)) [
    | inl e ↦ rw e d.1
    | inr e ↦ rw e (ground (arith, d.0, lookup-erase k i m d.1), erase-Distinct k m d.1)
  ]
