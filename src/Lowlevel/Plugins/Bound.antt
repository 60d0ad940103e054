-- ===== src/Lowlevel/Plugins/Bound.antt =====
-- The map from paths to the plugins bound to them: unique paths, and unique plugins at each.
use imas_core.Prelude.{
  true, false, List, [], ◌∷◌, ◌++◌, Option, none, some, Text, Dict, Distinct, lookup, assign,
  lookup-assign, lookup-erase, assign-Distinct, erase-Distinct, text_eq, text_eq_iff, is_empty,
  if◌then◌else◌, ◌≡◌, refl, arith, Bool-cases, inl, inr,
}
use imas_core.Lowlevel.Plugins.{is_in, erase_name, rebind, holds}

abbrev pub NoRepeat : List Text → Type 0
NoRepeat [] = Unit
NoRepeat (x ∷ xs) = (is_in x xs ≡ false) × NoRepeat xs

pub is_in-append :
    (n k : Text) (ps : List Text)
    → is_in n (ps ++ (k ∷ [])) ≡ (if text_eq k n then true else is_in n ps)
unfolding is_in
is_in-append n k [] = refl
is_in-append n k (x ∷ ps) = ground (arith, is_in-append n k ps)

pub append-NoRepeat :
    (k : Text) (ps : List Text) → is_in k ps ≡ false → NoRepeat ps → NoRepeat (ps ++ (k ∷ []))
unfolding is_in
append-NoRepeat k [] h d = (refl, tt)
append-NoRepeat k (x ∷ ps) h d = (
  ground (arith, h, d.0, is_in-append x k ps, text_eq_iff x k, text_eq_iff k x),
  append-NoRepeat k ps (ground (arith, h)) d.1,
)

pub is_in-erase_name :
    (n k : Text) (ps : List Text)
    → NoRepeat ps
    → is_in n (erase_name k ps) ≡ (if text_eq k n then false else is_in n ps)
unfolding is_in erase_name
is_in-erase_name n k [] d = ground arith
is_in-erase_name n k (x ∷ ps) d =
    ground
      (arith, d.0, text_eq_iff k n, text_eq_iff x k, text_eq_iff x n, is_in-erase_name n k ps d.1)

pub erase_name-NoRepeat : (k : Text) (ps : List Text) → NoRepeat ps → NoRepeat (erase_name k ps)
unfolding erase_name
erase_name-NoRepeat k [] d = tt
erase_name-NoRepeat k (x ∷ ps) d = elim (Bool-cases (text_eq x k)) [
  | inl e ↦ rw e d.1
  | inr e ↦ rw e (ground (arith, d.0, is_in-erase_name x k ps d.1), erase_name-NoRepeat k ps d.1)
]

pub erase_name-none : (k : Text) (ps : List Text) → is_in k ps ≡ false → erase_name k ps ≡ ps
unfolding is_in erase_name
erase_name-none k [] h = refl
erase_name-none k (x ∷ ps) h = ground (arith, h, erase_name-none k ps)

abbrev pub Names : Option (List Text) → Type 0
Names none = Unit
Names (some ps) = (is_empty ps ≡ false) × NoRepeat ps

pub record BoundInv (m : Dict (List Text)) : Type 0 where
  pub distinct : Distinct m
  pub names : (path : Text) → Names (lookup path m)

-- What a path holds once its plugins are the given ones.
abbrev pub bound_as : List Text → Option (List Text)
bound_as ps = if is_empty ps then none else some ps

pub bound_as-Names : (ps : List Text) → NoRepeat ps → Names (bound_as ps)
bound_as-Names [] d = tt
bound_as-Names (x ∷ ps) d = (refl, d)

pub lookup-rebind :
    (path j : Text) (ps : List Text) (m : Dict (List Text))
    → Distinct m
    → lookup j (rebind path ps m) ≡ (if text_eq path j then bound_as ps else lookup j m)
lookup-rebind path j [] m d = lookup-erase path j m d
lookup-rebind path j (x ∷ ps) m d = lookup-assign path j (x ∷ ps) m

rebind-Distinct :
    (path : Text) (ps : List Text) (m : Dict (List Text)) → Distinct m → Distinct (rebind path ps m)
rebind-Distinct path [] m d = erase-Distinct path m d
rebind-Distinct path (x ∷ ps) m d = assign-Distinct path (x ∷ ps) m d

pub rebind-BoundInv :
    (path : Text) (ps : List Text) (m : Dict (List Text))
    → NoRepeat ps
    → BoundInv m
    → BoundInv (rebind path ps m)
rebind-BoundInv path ps m d inv = record {
  distinct = rebind-Distinct path ps m inv.distinct;
  names = λ j. rw (lookup-rebind path j ps m inv.distinct) (elim (Bool-cases (text_eq path j)) [
    | inl e ↦ rw e (bound_as-Names ps d)
    | inr e ↦ rw e (inv.names j)
  ]);
}

pub holds-bound_as : (n : Text) (ps : List Text) → holds n (bound_as ps) ≡ is_in n ps
unfolding is_in
holds-bound_as n [] = refl
holds-bound_as n (x ∷ ps) = refl

pub rebind-append :
    (path name : Text) (ps : List Text) (m : Dict (List Text))
    → rebind path (ps ++ (name ∷ [])) m ≡ assign path (ps ++ (name ∷ [])) m
rebind-append path name [] m = refl
rebind-append path name (x ∷ ps) m = refl
