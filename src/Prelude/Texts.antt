-- ===== src/Prelude/Texts.antt =====
-- Texts as lists of byte values, with the operations of std::string and std::string_view that the
-- modelled code calls.
use Prim.Native.Char.{code}
use Prim.Native.String.{String}
use Prim.Native.Nat.{ℕ, zero, suc, ◌+◌, ◌/◌, ◌%◌}
use mathlib.Core.Path.{◌≡◌, refl}
use mathlib.Core.Logic.{◌↔◌}
use mathlib.Core.Bool.{Bool, true, false, ◌&&◌}
use mathlib.Core.List.{List, [], ◌∷◌}
use mathlib.Core.Option.{Option, none, some}
use native.Mathlib.Omega.{arith}
use imas_core.Prelude.Tests.{◌==◌, leb, if◌then◌else◌}

abbrev pub Text : Type 0
Text = List ℕ

-- A literal of the source. The literals used are ASCII.
abbrev pub codes : String → Text
codes String.[] = []
codes (String.◌∷◌ c s) = code c ∷ codes s

abbrev pub is_empty {ℓ} : {A : Type ℓ} → List A → Bool
is_empty [] = true
is_empty (x ∷ xs) = false

unfoldable pub text_eq : Text → Text → Bool
text_eq [] [] = true
text_eq (x ∷ xs) (y ∷ ys) = x == y && text_eq xs ys
text_eq _ _ = false

pub text_eq_iff : (a b : Text) → (text_eq a b ≡ true) ↔ (a ≡ b)
unfolding text_eq
text_eq_iff (x ∷ a) (y ∷ b) = ground (arith, text_eq_iff a b)
text_eq_iff _ _ = ground arith

pub text_eq_self : (a : Text) → text_eq a a ≡ true
text_eq_self a = (text_eq_iff a a).1 refl

-- `find(c)`: the position of the first `c`.
unfoldable pub find : ℕ → Text → Option ℕ
find c [] = none
find c (x ∷ xs) =
    let rest = find c xs in
    if x == c then some 0 else elim rest [ none ↦ none | some i ↦ some (suc i) ]

-- `rfind(prefix, 0) == 0`.
unfoldable pub starts_with : Text → Text → Bool
starts_with [] s = true
starts_with (p ∷ ps) [] = false
starts_with (p ∷ ps) (c ∷ s) = p == c && starts_with ps s

-- The digits of `n` in front of `out`, on fuel.
unfoldable pub digits_onto : ℕ → ℕ → Text → Text
digits_onto zero n out = out
digits_onto (suc fuel) n out =
    let rest = digits_onto fuel (n / 10) ((b'0' + n % 10) ∷ out) in
    if leb n 9 then (b'0' + n % 10) ∷ out else rest

-- `std::to_string` of an unsigned number.
unfoldable pub to_string : ℕ → Text
unfolding digits_onto
to_string n = digits_onto (suc n) n []
